-- ===== src/Login/Service/InMemory.antt =====
-- internal/login/service.go over internal/store/memory_development.go, as the development server
-- runs it.
use mathlib.Core.Path.{subst}
use game_server_go.Base.{◌≡◌, refl, sym, ap, ◌∙◌, inl, inr, Option-cases, none, some, Result, ok}
use game_server_go.Base.Equality.{int_eq, bytes_eq}
use game_server_go.Base.Int.{ℤ}
use game_server_go.Base.Map.{get, put, get-put_self}
use game_server_go.Base.Text.{Bytes}
use game_server_go.Store.Repository.{Player, is_not_found, PlayerRepository, SessionRepository}
use game_server_go.Store.Memory
use game_server_go.Store.Memory.{MemoryStore, store_player}
use game_server_go.Store.Memory.Rows.{
  IsRow, update_row, store_player-IsRow, create_row, created, created-IsRow,
}
use game_server_go.Store.Memory.Players.{IsIndexed}
use game_server_go.Login.Service.{
  LoginResult, LoginError, default_nickname, fresh_player, login, open_session, login_player,
  find_or_register, register_player, wrap_result, wrap_login_operation, wrap_exchange, wrap_token,
}

abbrev pub memory_players : PlayerRepository MemoryStore
memory_players = record {
  get_player_by_id = Memory.get_player_by_id;
  get_player_by_open_id = Memory.get_player_by_open_id;
  create_player = Memory.create_player;
  update_player = Memory.update_player;
}

abbrev pub memory_sessions : SessionRepository MemoryStore
memory_sessions = record {
  set_session = Memory.set_session;
  get_session = Memory.get_session;
  del_session = Memory.del_session;
}

-- NewLoginService over the store, after an exchange that succeeded with an open identifier.
abbrev pub login_as : Bytes → Bytes → MemoryStore → Result LoginError LoginResult × MemoryStore
login_as open_id token s =
    login memory_players memory_sessions (ok (record { open_id = open_id })) (ok token) s

-- The store has the player under both keys, and its session.
pub record IsLoggedIn (p : Player) (s : MemoryStore) : Type 0 where
  pub row : get p.id s.players_by_id ≡ some p
  pub key : get p.open_id s.player_id_by_open_id ≡ some p.id
  pub has_session :
      get p.id s.sessions_by_uid
      ≡ some (record { uid = p.id; nickname = p.nickname; token = p.token })

-- What a login of a known player leaves.
abbrev pub logged_in : Player → MemoryStore → MemoryStore
logged_in p s = record (store_player p s) {
  sessions_by_uid =
      put p.id (record { uid = p.id; nickname = p.nickname; token = p.token }) s.sessions_by_uid;
}

open_session_row :
    (p : Player) (token : Bytes) (s : MemoryStore)
    → IsRow p s
    → open_session memory_players memory_sessions p token s ≡ (
      ok (record { uid = p.id; nickname = p.nickname; token = token }),
      logged_in (record p { token = token }) s,
    )
unfolding open_session wrap_login_operation Memory.set_session store_player
open_session_row p token s at =
    rw (update_row p (record p { token = token }) s at refl refl, wrap_login_operation) refl

logged_in-IsRow : (p : Player) (s : MemoryStore) → IsRow p (logged_in p s)
logged_in-IsRow p s = let at = store_player-IsRow p s in record { row = at.row; key = at.key }

logged_in-IsLoggedIn : (p : Player) (s : MemoryStore) → IsLoggedIn p (logged_in p s)
logged_in-IsLoggedIn p s =
    let at = logged_in-IsRow p s in
    record { row = at.row; key = at.key; has_session = get-put_self p.id _ s.sessions_by_uid }

-- A login of a player in the store.
login_known :
    (p : Player) (token : Bytes) (s : MemoryStore)
    → IsRow p s
    → login_as p.open_id token s ≡ (
      ok (record { uid = p.id; nickname = p.nickname; token = token }),
      logged_in (record p { token = token }) s,
    )
unfolding login wrap_exchange login_player wrap_token find_or_register Memory.get_player_by_open_id
    Memory.player_of Memory.or_not_found
login_known p token s at =
    rw (at.key, Memory.player_of, at.row, Memory.or_not_found, find_or_register)
      (open_session_row p token s at)

-- The row of a player as the first login makes it, before its token.
abbrev pub registered : Bytes → ℤ → Player
registered open_id id = record (fresh_player open_id) { id = id; nickname = default_nickname id }

register_player_row :
    (open_id : Bytes) (s : MemoryStore)
    → get open_id s.player_id_by_open_id ≡ none
    → register_player memory_players memory_sessions open_id s ≡ (
      ok (registered open_id s.next_player_id),
      store_player (registered open_id s.next_player_id) (created (fresh_player open_id) s),
    )
unfolding register_player wrap_result wrap_login_operation
register_player_row open_id s free =
    let first = record (fresh_player open_id) { id = s.next_player_id } in
    rw
      (
        create_row (fresh_player open_id) s free,
        wrap_result,
        update_row first (registered open_id s.next_player_id) (created (fresh_player open_id) s)
            (created-IsRow (fresh_player open_id) s) refl refl,
        wrap_login_operation,
      )
      refl

pub login_new :
    (open_id token : Bytes) (s : MemoryStore)
    → get open_id s.player_id_by_open_id ≡ none
    → login_as open_id token s ≡ (
      ok (record {
        uid = s.next_player_id;
        nickname = default_nickname s.next_player_id;
        token = token;
      }),
      logged_in
          (record (registered open_id s.next_player_id) { token = token })
          (store_player (registered open_id s.next_player_id) (created (fresh_player open_id) s)),
    )
unfolding login wrap_exchange login_player wrap_token find_or_register Memory.get_player_by_open_id
    Memory.player_of is_not_found
login_new open_id token s free =
    rw (free, Memory.player_of, find_or_register, register_player_row open_id s free)
      (open_session_row (registered open_id s.next_player_id) token
        (store_player (registered open_id s.next_player_id) (created (fresh_player open_id) s))
        (store_player-IsRow _ _))

-- A login that leaves a player logged in, and a second one.
pub LogsInTwice : Bytes → Bytes → Bytes → MemoryStore → Player → Type 0
LogsInTwice open_id token again s p =
    ((login_as open_id token s).0
      ≡ ok (record { uid = p.id; nickname = p.nickname; token = token }))
    × (p.open_id ≡ open_id)
    × (p.token ≡ token)
    × IsLoggedIn p (login_as open_id token s).1
    × ((login_as open_id again (login_as open_id token s).1).0
        ≡ ok (record { uid = p.id; nickname = p.nickname; token = again }))
    × IsLoggedIn (record p { token = again })
        (login_as open_id again (login_as open_id token s).1).1

twice :
    (p : Player) (again : Bytes) (s base : MemoryStore)
    → login_as p.open_id p.token s
      ≡ (ok (record { uid = p.id; nickname = p.nickname; token = p.token }), logged_in p base)
    → LogsInTwice p.open_id p.token again s p
unfolding LogsInTwice
twice p again s base e = (
  ap (λ out. out.0) e,
  refl,
  refl,
  rw (ap (λ out. out.1) e) (logged_in-IsLoggedIn p base),
  rw (ap (λ out. out.1) e)
      (ap (λ out. out.0) (login_known p again (logged_in p base) (logged_in-IsRow p base))),
  rw
      (
        ap (λ out. out.1) e,
        ap (λ out. out.1) (login_known p again (logged_in p base) (logged_in-IsRow p base)),
      )
      (logged_in-IsLoggedIn (record p { token = again }) (logged_in p base)),
)

indexed-IsRow :
    (s : MemoryStore)
    → IsIndexed s
    → (open_id : Bytes) (id : ℤ) → get open_id s.player_id_by_open_id ≡ some id
    → (p : Player) × (p.open_id ≡ open_id) × IsRow p s
indexed-IsRow s v open_id id e =
    let (p, row, key) = v.agree.by_open_id open_id id e in
    let (same, back) = v.agree.by_id id p row in
    (
      p,
      key,
      record {
        row = subst (λ i. get i s.players_by_id ≡ some p) (sym same) row;
        key = back ∙ ap some (sym same);
      },
    )

-- A login over a store whose maps agree succeeds for any open identifier and token: it answers with
-- a player of that open identifier, and the store then has the player with the token, its key and
-- its session. A second login answers with the same player and the new token, and the store then has
-- the player with the new token, its key and its session.
pub login-login :
    (open_id token again : Bytes) (s : MemoryStore)
    → IsIndexed s
    → (p : Player) × LogsInTwice open_id token again s p
login-login open_id token again s v = elim (Option-cases (get open_id s.player_id_by_open_id)) [
  | inl free ↦ (
    _,
    twice (record (registered open_id s.next_player_id) { token = token }) again s _
        (login_new open_id token s free),
  )
  | inr (id, e) ↦
      let (p, key, at) = indexed-IsRow s v open_id id e in
      (
        record p { token = token },
        subst (λ o. LogsInTwice o token again s (record p { token = token })) key
            (twice (record p { token = token }) again s s (login_known p token s at)),
      )
]
