-- ===== src/Session/Lifecycle.antt =====
-- What a session remembers: identity, business state and the order of its close callbacks.
use game_server_go.Base.{◌≡◌, refl, List, [], ◌∷◌, ◌++◌, arith, if◌then◌else◌}
use game_server_go.Base.Int.{ℤ}
use game_server_go.Base.Equality.{◌==◌, bytes_eq}
use game_server_go.Base.Map.{get-put}
use game_server_go.Base.Text.{Bytes}
use game_server_go.Session.{
  Session, text, set, get_string, on_close_add, run_all, close, bind, as_text, get_value,
}

-- A string that was set is read back under its key; setting it changes no other key's string, the
-- identity or the callbacks, and binding an identity afterwards changes no string.
pub get_string-set :
    {C : Type 0} (key other_key t : Bytes) (uid : ℤ) (s : Session C)
    → (get_string other_key (bind uid (set key (text t) s))
        ≡ (if key == other_key then t else get_string other_key s))
      × ((bind uid (set key (text t) s)).uid ≡ uid)
      × ((bind uid (set key (text t) s)).on_close ≡ s.on_close)
unfolding get_string set bind as_text get_value
get_string-set key other_key t uid s =
    (ground (arith, get-put key other_key (text t) s.data_map), refl, refl)

pub get_string-set_text :
    {C : Type 0} (key other_key t : Bytes) (s : Session C)
    → get_string other_key (set key (text t) s)
      ≡ (if key == other_key then t else get_string other_key s)
unfolding get_string set as_text get_value
get_string-set_text key other_key t s = ground (arith, get-put key other_key (text t) s.data_map)

run_all-append {ℓ} :
    {C : Type 0} {W : Type ℓ} (run : C → W → W) (xs ys : List C) (w : W)
    → run_all run (xs ++ ys) w ≡ run_all run ys (run_all run xs w)
unfolding run_all
run_all-append run [] ys w = refl
run_all-append run (x ∷ xs) ys w = run_all-append run xs ys (run x w)

-- A callback that is registered last runs last, on what the earlier ones left; and registering it
-- changes nothing that they do.
pub close-on_close_add {ℓ} :
    {C : Type 0} {W : Type ℓ} (run : C → W → W) (callback : C) (s : Session C) (w : W)
    → close run (on_close_add callback s) w ≡ run callback (close run s w)
unfolding close on_close_add
close-on_close_add run callback s w = run_all-append run s.on_close (callback ∷ []) w
