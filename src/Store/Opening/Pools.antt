-- ===== src/Store/Opening/Pools.antt =====
-- The pools that the constructors of mysql.go leave open.
use game_server_go.Base.{ℕ, ◌+◌, ◌-◌, ◌≡◌, ◌⊎◌, arith, Option, none, some, inl, inr, refl, ap, ◌∙◌}
use game_server_go.Base.Int.{ℤ}
use game_server_go.Base.Text.{Bytes}
use game_server_go.Config.{MySqlConfig, dsn}
use game_server_go.Store.MySql.{validate_and_close_on_failure, close_after}
use game_server_go.Store.Opening.{
  MySqlDriver, OpenError, mysql_connection, mysql_handle, mysql_migration, opened, migrated,
  with_db, new_mysql_store, close_handle, close_mysql_store,
}

-- The number of open pools after gorm.Open.
abbrev pub after_open : Option Bytes → ℕ → ℕ
after_open none n = n + 1
after_open (some e) n = n

-- `pools` counts the open pools: opening a database adds one unless it fails, closing takes one away,
-- and nothing else changes their number.
pub record PoolLaws {W : Type 0} (d : MySqlDriver W) (pools : W → ℕ) : Type 0 where
  pub opens : (t : Bytes) (w : W) → pools (d.open_db t w).1 ≡ after_open (d.open_db t w).0 (pools w)
  pub handles : (w : W) → pools (d.sql_db w).1 ≡ pools w
  pub idles : (n : ℤ) (w : W) → pools (d.set_max_idle_conns n w) ≡ pools w
  pub limits : (n : ℤ) (w : W) → pools (d.set_max_open_conns n w) ≡ pools w
  pub migrates : (w : W) → pools (d.auto_migrate w).1 ≡ pools w
  pub closes : (w : W) → pools (d.close_db w).1 ≡ pools w - 1

module _ {W : Type 0} (d : MySqlDriver W) (pools : W → ℕ) (laws : PoolLaws d pools) where
  -- How many pools are open after each result of the constructor, where `n` were before.
  abbrev pub Leaves : ℕ → Option OpenError × W → Type 0
  Leaves n r =
      ((r.0 ≡ none) × (pools r.1 ≡ n + 1))
      ⊎ ((e : Bytes) × (r.0 ≡ some (mysql_handle e))
          × ((v : W) × ((d.sql_db v).0 ≡ some e))
          × (pools r.1 ≡ n + 1))
      ⊎ ((e : Bytes) × ((r.0 ≡ some (mysql_connection e)) ⊎ (r.0 ≡ some (mysql_migration e)))
          × (pools r.1 ≡ n))

  close_after-Leaves :
      (n : ℕ) (o : Option Bytes × W)
      → pools o.1 ≡ n + 1
      → Leaves n (opened mysql_migration (close_after d.close_db o))
  unfolding close_after opened
  close_after-Leaves n (none, w) k = inl (refl, k)
  close_after-Leaves n (some e, w) k = inr (inr (e, inr refl, omega (arith, laws.closes w, k)))

  migrated-Leaves :
      (n : ℕ) (cfg : MySqlConfig) (v : W) (o : Option Bytes × W)
      → d.sql_db v ≡ o
      → pools o.1 ≡ n + 1
      → Leaves n (migrated d cfg o)
  unfolding migrated validate_and_close_on_failure
  migrated-Leaves n cfg v (some e, w) called k = inr (inl (e, refl, (v, ap (λ r. r.0) called), k))
  migrated-Leaves n cfg v (none, w) called k =
      let idle = d.set_max_idle_conns cfg.max_idle_conns w in
      let pooled = d.set_max_open_conns cfg.max_open_conns idle in
      close_after-Leaves n (d.auto_migrate pooled) (
        laws.migrates pooled
        ∙ (laws.limits cfg.max_open_conns idle ∙ (laws.idles cfg.max_idle_conns w ∙ k)))

  with_db-Leaves :
      (n : ℕ) (cfg : MySqlConfig) (o : Option Bytes × W)
      → pools o.1 ≡ after_open o.0 n
      → Leaves n (with_db d cfg o)
  unfolding with_db
  with_db-Leaves n cfg (some e, w) k = inr (inr (e, inl refl, k))
  with_db-Leaves n cfg (none, w) k = migrated-Leaves n cfg w (d.sql_db w) refl (laws.handles w ∙ k)

  -- NewMySQLStore leaves one more pool open where it succeeds, and none where connecting or migrating
  -- fails; where db.DB fails the pool that was opened stays open.
  pub new_mysql_store-Leaves :
      (cfg : MySqlConfig) (w : W) → Leaves (pools w) (new_mysql_store d cfg w)
  unfolding new_mysql_store
  new_mysql_store-Leaves cfg w =
      with_db-Leaves (pools w) cfg (d.open_db (dsn cfg) w) (laws.opens (dsn cfg) w)

  close_handle-pools :
      (o : Option Bytes × W) → o.0 ≡ none → pools (close_handle d o).1 ≡ pools o.1 - 1
  unfolding close_handle
  close_handle-pools (some e, w) found = absurd cc
  close_handle-pools (none, w) found = laws.closes w

  -- Close gives back a pool, if db.DB does not fail.
  pub close_mysql_store_lem :
      (w : W) → (d.sql_db w).0 ≡ none → pools (close_mysql_store d w).1 ≡ pools w - 1
  unfolding close_mysql_store
  close_mysql_store_lem w found =
      close_handle-pools (d.sql_db w) found ∙ ap (λ n. n - 1) (laws.handles w)
