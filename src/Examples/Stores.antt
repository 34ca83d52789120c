-- ===== src/Examples/Stores.antt =====
-- Sessions, request counts and the leaderboard's members in Redis.
use game_server_go.Base.Int.{leb_ℤ}
use game_server_go.Base.Map.{get}
use game_server_go.Hooks.{rate_limit, context_uid}
use game_server_go.Hooks.RateLimit.{redis_check, rate_limit-redis_check}
use game_server_go.Kernel.{is_auth_free}
use game_server_go.Kernel.Dispatch.{session_context}
use game_server_go.Pipeline.{message}
use game_server_go.Protocol.Errors.{biz, err_too_frequent}
use game_server_go.Examples.Server.{request}
use game_server_go.Base.{ℕ, suc, ◌≡◌, refl, [], none, some, ok}
use game_server_go.Base.Int.{pos, int_laws}
use game_server_go.Base.Map.{Map}
use game_server_go.Base.Text.{Bytes, utf8}
use game_server_go.Store.Redis.{Commands, set_session, get_session, rank_member}
use game_server_go.Store.Redis.RateLimit.{Counts, passed, passed_lem}
use game_server_go.Store.Redis.Sessions.{Hashes, write_fields, get_session-set_session}
use game_server_go.Store.Repository.{SessionData}
use game_server_go.Rank.{parse_member}
use game_server_go.Rank.Member.{parse_member-rank_member}

-- A Redis server with one counter and one hash, and no leaderboard.
pub record Keys : Type 0 where
  pub counter : ℕ
  pub fields : Map Bytes Bytes

abbrev one_key : Commands Keys
one_key = record {
  ping = λ w. (none, w);
  close = λ w. (none, w);
  hset = λ k fs w. (none, record w { fields = write_fields fs w.fields });
  hgetall = λ k w. (ok w.fields, w);
  del = λ k w. (none, record w { fields = [] });
  expire = λ k t w. (none, w);
  zadd = λ k score member w. (none, w);
  zrevrange_with_scores = λ k a b w. (ok [], w);
  zrevrank = λ k member w. (ok (pos 0), w);
  script_incr = λ k w. (ok (pos (suc w.counter)), record w { counter = suc w.counter });
  script_expire = λ k s w. (none, w);
}

one_key-Counts : Counts one_key (λ k w. w.counter)
one_key-Counts = record {
  incr_answer = λ k w. refl;
  incr_count = λ k w. refl;
  expire_answer = λ k s w. refl;
  expire_count = λ k s w positive. refl;
}

abbrev no_keys : Keys
no_keys = record { counter = 0; fields = [] }

passed_lem_example : passed one_key (λ d. pos 1) (utf8 "7") (pos 3) (pos 1000000000) 5 no_keys ≡ 3
passed_lem_example =
    passed_lem one_key (λ k w. w.counter) one_key-Counts (λ d. pos 1) (utf8 "7") 3 (pos 1000000000)
      (omega int_laws) 5 no_keys

one_key-Hashes : Hashes one_key (λ k w. w.fields)
one_key-Hashes = record {
  hset_hash = λ k fs w done. refl;
  expire_hash = λ k ns w positive. refl;
  hgetall_hash = λ k w. refl;
}

abbrev ann : SessionData
ann = record { uid = pos 7; nickname = utf8 "Ann"; token = utf8 "t1" }

get_session-set_session_example :
    (get_session one_key (pos 7) (set_session one_key (pos 7) ann no_keys).1).0 ≡ ok (some ann)
unfolding set_session
get_session-set_session_example =
    get_session-set_session one_key (λ k w. w.fields) one_key-Hashes ann no_keys (omega int_laws)
      (omega int_laws) refl

parse_member-rank_member_example :
    parse_member (rank_member (pos 7) (utf8 "a:b")) ≡ (pos 7, utf8 "a:b")
parse_member-rank_member_example =
    parse_member-rank_member (pos 7) (utf8 "a:b") (omega int_laws) (omega int_laws)

-- A hundred requests were counted before this one.
rate_limit-redis_check_example :
    (rate_limit
      (λ s w. pos 7)
      []
      (redis_check one_key (λ ns. pos 1))
      100
      1
      (session_context 3)
      (message request)
      (record { counter = 100; fields = [] })).error
    ≡ some (biz err_too_frequent (utf8 "请求过于频繁，请稍后再试"))
unfolding is_auth_free get context_uid leb_ℤ
rate_limit-redis_check_example =
    rate_limit-redis_check (λ s w. pos 7) [] one_key (λ k w. w.counter) one_key-Counts (λ ns. pos 1)
      100 1 (omega int_laws) (session_context 3) (message request)
      (record { counter = 100; fields = [] }) refl refl
