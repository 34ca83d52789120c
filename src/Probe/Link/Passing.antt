-- ===== src/Probe/Link/Passing.antt =====
-- The session that cmd/devprobe/main.go plays against the development server of cmd/server/main.go.
use game_server_go.Base.{ℕ, ◌≡◌, ap, ◌∙◌, true, none, ok}
use game_server_go.Base.Equality.{nat_eq, int_eq, bytes_eq}
use game_server_go.Base.Text.{Bytes}
use game_server_go.Messages.{type_of}
use game_server_go.Kernel.{Kernel}
use game_server_go.Store.Memory.{MemoryStore, key_eq}
use game_server_go.Runtime.Start.{Runtime}
use game_server_go.Runtime.Development.{World, Libraries, connected, development_runtime}
use game_server_go.Runtime.Development.Handlers.{kernel_of, development_runtime_lem}
use game_server_go.Probe.{new_probe_archive, next_seq}
use game_server_go.Probe.Code.{IsIdentity, login_code}
use game_server_go.Probe.Run.{
  check_login, check_initial_load, check_save, check_final_load, check_first, check_duplicate, play,
  run_probe,
}
use game_server_go.Probe.Link.{link, expect_answers}
use game_server_go.Probe.Link.Expected.{first_settlement}
use game_server_go.Probe.Run.Steps.{play_steps, run_probe_ends}
use game_server_go.Base.Int.{eqb_ℤ, leb_ℤ}
use game_server_go.Probe.Link.Answered.{
  logged, settled_world, logging_in, loading, saving, reloading, settling, replaying, login_checked,
}
use game_server_go.Probe.Link.Carried.{IsUnknown, Carries, run_of}

kernel_started :
    (libs : Libraries) (s : MemoryStore) (rt : Runtime World)
    → (development_runtime libs true (connected s)).0 ≡ ok rt
    → rt.kernel ≡ kernel_of libs true
kernel_started libs s rt e = cc (development_runtime_lem libs true (connected s))

module _ (libs : Libraries) (identity token : Bytes) (s : MemoryStore) (known : IsIdentity identity)
    (unknown : IsUnknown (login_code identity) s)
    (c : Carries libs (login_code identity) token s.next_player_id) where
  played :
      play
        (link libs (kernel_of libs true))
        libs.marshal
        libs.unmarshal
        (login_code identity)
        (record { conn = connected s; seq = 0 })
      ≡ (
        ok tt,
        record {
          conn = settled_world libs identity token s known unknown c;
          seq = next_seq (next_seq (next_seq (next_seq (next_seq (next_seq 0)))));
        },
      )
  unfolding type_of check_initial_load check_save check_final_load check_first check_duplicate
      new_probe_archive eqb_ℤ leb_ℤ
  played =
      let k : Kernel World = kernel_of libs true in
      let n : ℕ = next_seq 0 in
      play_steps (link libs k) libs.marshal libs.unmarshal (login_code identity)
        (first_settlement (run_of (login_code identity))) _ _ _ _ _ _ _
        (expect_answers libs k 0 (logging_in libs identity token s known unknown c) check_login
          ∙ ap (λ r. (r, record { conn = logged libs identity token s known unknown c; seq = n }))
              (login_checked libs identity token s known unknown c))
        (expect_answers libs k n (loading libs identity token s known unknown c) check_initial_load)
        (expect_answers libs k (next_seq n) (saving libs identity token s known unknown c)
          check_save)
        (expect_answers libs k (next_seq (next_seq n))
          (reloading libs identity token s known unknown c) check_final_load)
        (expect_answers libs k (next_seq (next_seq (next_seq n)))
          (settling libs identity token s known unknown c) check_first)
        (expect_answers libs k (next_seq (next_seq (next_seq (next_seq n))))
          (replaying libs identity token s known unknown c)
          (check_duplicate (first_settlement (run_of (login_code identity)))))

-- Against a development server that has not seen its identity, the probe runs to its end without an
-- error, whatever its sixteen random bytes are: it logs in, finds no archive, saves one, loads the
-- same, has a run settled, and gets the stored settlement for the same run again. The server is
-- newRuntime's, with development logins enabled. The libraries must give a token, encode what is
-- stored and sent so that it decodes to the same, and allow two kills in a dungeon of level 2.
pub run_probe_passes :
    (libs : Libraries) (identity token : Bytes) (s : MemoryStore) (rt : Runtime World)
    → (development_runtime libs true (connected s)).0 ≡ ok rt
    → IsIdentity identity
    → IsUnknown (login_code identity) s
    → Carries libs (login_code identity) token s.next_player_id
    → (run_probe
        (link libs rt.kernel)
        libs.marshal
        libs.unmarshal
        (λ w. (none, w))
        (ok identity)
        (connected s)).0
      ≡ ok tt
run_probe_passes libs identity token s rt started known unknown c =
    rw (kernel_started libs s rt started) (
      run_probe_ends _ libs.marshal libs.unmarshal identity (connected s)
        (played libs identity token s known unknown c))
