-- ===== src/Store/Redis/Sessions.antt =====
-- SetSession and GetSession of internal/store/redis.go over one hash.
use game_server_go.Base.{
  ◌≡◌, refl, false, ◌∙◌, ap, List, [], ◌∷◌, Option, none, some, Result, ok, arith,
}
use game_server_go.Base.Decimal.{format_int}
use game_server_go.Base.Equality.{◌==◌, bytes_eq, bytes_beq}
use game_server_go.Base.Int.{ℤ, pos, ◌<ℤ◌, ◌≤ℤ◌, min_int64, max_int64}
use game_server_go.Base.Map.{Map, get, put, get-put_self, get-put_other}
use game_server_go.Base.Parse.{parsed_value}
use game_server_go.Base.Parse.RoundTrip.{parse_int-format_int}
use game_server_go.Base.Text.{Bytes, utf8}
use game_server_go.Store.Repository.{SessionData, StoreError}
use game_server_go.Store.Redis.{
  Argument, integer, string, Commands, session_key, session_fields, read_session, session_of,
  set_session, get_session, expire_session, two_hours,
}

-- What a server stores for an argument.
argument_text : Argument → Bytes
argument_text (integer z) = format_int z
argument_text (string s) = s

unfoldable pub write_fields : List (Bytes × Argument) → Map Bytes Bytes → Map Bytes Bytes
unfolding argument_text
write_fields [] m = m
write_fields ((k, v) ∷ fs) m = write_fields fs (put k (argument_text v) m)

-- HSET, HGETALL and EXPIRE as Redis documents them, while the key has not expired: `hash` reads one.
pub record Hashes {W : Type 0} (c : Commands W) (hash : Bytes → W → Map Bytes Bytes) : Type 0 where
  pub hset_hash :
      (k : Bytes) (fs : List (Bytes × Argument)) (w : W)
      → (c.hset k fs w).0 ≡ none
      → hash k (c.hset k fs w).1 ≡ write_fields fs (hash k w)
  pub expire_hash :
      (k : Bytes) (ns : ℤ) (w : W) → pos 0 <ℤ ns → hash k (c.expire k ns w).1 ≡ hash k w
  pub hgetall_hash : (k : Bytes) (w : W) → (c.hgetall k w).0 ≡ ok (hash k w)

-- No two of the fields share a name.
names_apart :
    ((utf8 "token" == utf8 "uid") ≡ false)
    × ((utf8 "token" == utf8 "nickname") ≡ false)
    × ((utf8 "nickname" == utf8 "uid") ≡ false)
unfolding utf8 bytes_beq
names_apart = (refl, refl, refl)

uid_field :
    (d : SessionData) (m : Map Bytes Bytes)
    → get (utf8 "uid") (write_fields (session_fields d) m) ≡ some (format_int d.uid)
unfolding write_fields argument_text
uid_field d m =
    get-put_other (utf8 "token") (utf8 "uid") d.token _ names_apart.0
    ∙ get-put_other (utf8 "nickname") (utf8 "uid") d.nickname _ names_apart.2
    ∙ get-put_self (utf8 "uid") (format_int d.uid) m

nickname_field :
    (d : SessionData) (m : Map Bytes Bytes)
    → get (utf8 "nickname") (write_fields (session_fields d) m) ≡ some d.nickname
unfolding write_fields argument_text
nickname_field d m =
    get-put_other (utf8 "token") (utf8 "nickname") d.token _ names_apart.1
    ∙ get-put_self (utf8 "nickname") d.nickname _

token_field :
    (d : SessionData) (m : Map Bytes Bytes)
    → get (utf8 "token") (write_fields (session_fields d) m) ≡ some d.token
unfolding write_fields argument_text
token_field d m = get-put_self (utf8 "token") d.token _

read_session-write_fields :
    (d : SessionData) (m : Map Bytes Bytes)
    → min_int64 ≤ℤ d.uid
    → d.uid ≤ℤ max_int64
    → read_session (write_fields (session_fields d) m) ≡ d
unfolding parsed_value
read_session-write_fields d m low high =
    rw (uid_field d m, nickname_field d m, token_field d m, parse_int-format_int d.uid low high)
      refl

-- A hash that was written is not empty.
session_of-write_fields :
    {W : Type 0} (d : SessionData) (m : Map Bytes Bytes) (w : W)
    → session_of (ok (write_fields (session_fields d) m), w)
      ≡ (ok (some (read_session (write_fields (session_fields d) m))), w)
unfolding session_of write_fields put
session_of-write_fields d m w = refl

session_of_written :
    {W : Type 0} (d : SessionData) (m : Map Bytes Bytes) (a : Result StoreError (Map Bytes Bytes))
    (w : W)
    → min_int64 ≤ℤ d.uid
    → d.uid ≤ℤ max_int64
    → a ≡ ok (write_fields (session_fields d) m)
    → (session_of (a, w)).0 ≡ ok (some d)
session_of_written d m a w low high e =
    ap (λ r. (session_of (r, w)).0) e
    ∙ ap (λ r. r.0) (session_of-write_fields d m w)
    ∙ ap (λ s. ok (some s)) (read_session-write_fields d m low high)

module _ {W : Type 0} (c : Commands W) (hash : Bytes → W → Map Bytes Bytes)
    (laws : Hashes c hash) where
  get_session_lem :
      (d : SessionData) (m : Map Bytes Bytes) (w : W)
      → min_int64 ≤ℤ d.uid
      → d.uid ≤ℤ max_int64
      → hash (session_key d.uid) w ≡ write_fields (session_fields d) m
      → (get_session c d.uid w).0 ≡ ok (some d)
  unfolding get_session
  get_session_lem d m w low high at =
      session_of_written d m (c.hgetall (session_key d.uid) w).0 (c.hgetall (session_key d.uid) w).1
        low high (laws.hgetall_hash (session_key d.uid) w ∙ ap ok at)

  stored_lem :
      (d : SessionData) (m : Map Bytes Bytes) (o : Option StoreError) (w : W)
      → min_int64 ≤ℤ d.uid
      → d.uid ≤ℤ max_int64
      → (o ≡ none → hash (session_key d.uid) w ≡ write_fields (session_fields d) m)
      → (expire_session c d.uid (o, w)).0 ≡ none
      → (get_session c d.uid (expire_session c d.uid (o, w)).1).0 ≡ ok (some d)
  unfolding expire_session
  stored_lem d m (some e) w low high at done = absurd cc
  stored_lem d m none w low high at done =
      get_session_lem d m (c.expire (session_key d.uid) two_hours w).1 low high
        (laws.expire_hash (session_key d.uid) two_hours w (omega arith) ∙ at refl)

-- A session that was stored without an error is read back as it was, for every int64 as the uid.
pub get_session-set_session :
    {W : Type 0} (c : Commands W) (hash : Bytes → W → Map Bytes Bytes)
    → Hashes c hash
    → (d : SessionData) (w : W) → min_int64 ≤ℤ d.uid
    → d.uid ≤ℤ max_int64
    → (set_session c d.uid d w).0 ≡ none
    → (get_session c d.uid (set_session c d.uid d w).1).0 ≡ ok (some d)
unfolding set_session
get_session-set_session c hash laws d w low high done =
    stored_lem c hash laws d (hash (session_key d.uid) w)
      (c.hset (session_key d.uid) (session_fields d) w).0
      (c.hset (session_key d.uid) (session_fields d) w).1 low high
      (laws.hset_hash (session_key d.uid) (session_fields d) w) done
