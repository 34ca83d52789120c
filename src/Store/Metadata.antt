-- ===== src/Store/Metadata.antt =====
-- internal/store/combat_metadata.go: the analytics of one settlement. json.Marshal of the four fields is
-- the parameter `encode`.
use game_server_go.Base.{Result, ok, err, ◌++◌}
use game_server_go.Base.Float.{Float64}
use game_server_go.Base.Int.{ℤ}
use game_server_go.Base.Text.{Bytes, utf8}
use game_server_go.Messages.Combat.{CombatResultReq}

explained : Result Bytes Bytes → Result Bytes Bytes
explained (ok text) = ok text
explained (err e) = err (utf8 "combat score metadata: " ++ e)

-- CombatScoreMetadataJSON, for a request that is not nil.
unfoldable pub metadata_json :
    (ℤ → Float64 → ℤ → ℤ → Result Bytes Bytes) → CombatResultReq → Result Bytes Bytes
unfolding explained
metadata_json encode req =
    explained (encode req.kills req.survival_time req.dungeon_level req.style_id)
