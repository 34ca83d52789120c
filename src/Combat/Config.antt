-- ===== src/Combat/Config.antt =====
-- internal/combat/config.go: the tables. Floating point constants are bit patterns.
use game_server_go.Base.{List, [], ◌∷◌, Option, none, some, if◌then◌else◌}
use game_server_go.Base.Int.{ℤ, pos, ◌+ℤ◌, ◌-ℤ◌, ◌*ℤ◌, ltb_ℤ, eqb_ℤ, wrap32, wrap64}
use game_server_go.Base.Float.{Float64, FloatOps, float_lt}
use game_server_go.Base.Text.{utf8}
use game_server_go.Messages.Combat.{EnemyConfigItem, DungeonConfigItem, StyleConfigItem}
use game_server_go.Store.Repository.{CombatRewardPolicy}

pub record CombatConfig : Type 0 where
  pub max_hp : ℤ
  pub max_stamina : ℤ
  pub base_attack_power : ℤ
  pub dash_cost : ℤ
  pub heavy_attack_cost : ℤ
  pub parry_cost : ℤ
  pub parry_window : Float64
  pub gold_per_kill : ℤ
  pub exp_per_kill : ℤ
  pub max_score_per_level : ℤ
  pub max_kills_multiplier : Float64

-- DefaultCombatConfig
abbrev pub default_combat_config : CombatConfig
default_combat_config = record {
  max_hp = pos 100;
  max_stamina = pos 100;
  base_attack_power = pos 10;
  dash_cost = pos 25;
  heavy_attack_cost = pos 30;
  parry_cost = pos 15;
  parry_window = 0x3fd3_3333_3333_3333;
  gold_per_kill = pos 5;
  exp_per_kill = pos 10;
  max_score_per_level = pos 10000;
  max_kills_multiplier = 0x4008_0000_0000_0000;
}

-- GetEnemyConfigs
unfoldable pub get_enemy_configs : List EnemyConfigItem
get_enemy_configs =
    record {
      id = pos 1;
      name = utf8 "杂兵";
      hp = pos 30;
      damage = pos 10;
      speed = 0x4000_0000;
      attack_range = 0x3f99_999a;
      enemy_type = utf8 "grunt";
    }
    ∷ record {
      id = pos 2;
      name = utf8 "弓手";
      hp = pos 20;
      damage = pos 8;
      speed = 0x3fc0_0000;
      attack_range = 0x40c0_0000;
      enemy_type = utf8 "archer";
    }
    ∷ record {
      id = pos 3;
      name = utf8 "精英";
      hp = pos 80;
      damage = pos 20;
      speed = 0x4040_0000;
      attack_range = 0x3fc0_0000;
      enemy_type = utf8 "elite";
    }
    ∷ record {
      id = pos 4;
      name = utf8 "Boss";
      hp = pos 300;
      damage = pos 25;
      speed = 0x4020_0000;
      attack_range = 0x4000_0000;
      enemy_type = utf8 "boss";
    }
    ∷ []

-- GetStyleConfigs
unfoldable pub get_style_configs : List StyleConfigItem
get_style_configs =
    record {
      style_id = pos 1;
      style_name = utf8 "刃";
      damage_mult = 0x3f80_0000;
      speed_mult = 0x3f99_999a;
      parry_mult = 0x3f80_0000;
      dash_speed_mult = 0x3f80_0000;
      dash_cost_mult = 0x3f80_0000;
      special_resource_max = pos 100;
      special_resource_name = utf8 "怒气";
      description = utf8 "高速连击流派，刃风暴消耗怒气";
    }
    ∷ record {
      style_id = pos 2;
      style_name = utf8 "印";
      damage_mult = 0x3f4c_cccd;
      speed_mult = 0x3f80_0000;
      parry_mult = 0x3fc0_0000;
      dash_speed_mult = 0x3f80_0000;
      dash_cost_mult = 0x3f80_0000;
      special_resource_max = pos 5;
      special_resource_name = utf8 "印记";
      description = utf8 "弹反强化流派，弹反放置印记可引爆";
    }
    ∷ record {
      style_id = pos 3;
      style_name = utf8 "毒";
      damage_mult = 0x3f19_999a;
      speed_mult = 0x3f80_0000;
      parry_mult = 0x3f4c_cccd;
      dash_speed_mult = 0x3f80_0000;
      dash_cost_mult = 0x3f80_0000;
      special_resource_max = pos 100;
      special_resource_name = utf8 "毒液";
      description = utf8 "持续伤害流派，攻击叠毒，毒雾范围DoT";
    }
    ∷ record {
      style_id = pos 4;
      style_name = utf8 "血";
      damage_mult = 0x3fc0_0000;
      speed_mult = 0x3f4c_cccd;
      parry_mult = 0x3f19_999a;
      dash_speed_mult = 0x3f80_0000;
      dash_cost_mult = 0x3f80_0000;
      special_resource_max = pos 100;
      special_resource_name = utf8 "鲜血";
      description = utf8 "高风险高回报流派，血祭扣HP换爆发伤害";
    }
    ∷ record {
      style_id = pos 5;
      style_name = utf8 "剑";
      damage_mult = 0x3f99_999a;
      speed_mult = 0x3f80_0000;
      parry_mult = 0x3fa6_6666;
      dash_speed_mult = 0x3f80_0000;
      dash_cost_mult = 0x3f80_0000;
      special_resource_max = pos 100;
      special_resource_name = utf8 "专注";
      description = utf8 "均衡反击流派，完美弹反增益，剑气远程斩击";
    }
    ∷ []

-- The rounded values of GetDungeonConfig, before their caps.
room_count_of : ℤ → ℤ
room_count_of level =
    let count = wrap64 (pos 8 +ℤ wrap64 (level *ℤ pos 2)) in
    if ltb_ℤ (pos 20) count then pos 20 else count

enemy_density_of : FloatOps → ℤ → Float64
enemy_density_of ops level =
    let raw =
      ops.add 0x3ff0_0000_0000_0000
        (ops.mul (ops.of_int (wrap64 (level -ℤ pos 1))) 0x3fc3_3333_3333_3333) in
    if float_lt 0x4008_0000_0000_0000 raw then 0x4008_0000_0000_0000 else raw

-- GetDungeonConfig, which never returns nil.
unfoldable pub get_dungeon_config : FloatOps → ℤ → DungeonConfigItem
unfolding room_count_of enemy_density_of
get_dungeon_config ops level = record {
  level = wrap32 level;
  room_count = wrap32 (room_count_of level);
  enemy_density = ops.to_float32 (enemy_density_of ops level);
  boss_id = pos 4;
}

find_style : ℤ → List StyleConfigItem → Option StyleConfigItem
find_style style_id [] = none
find_style style_id (s ∷ rest) =
    if eqb_ℤ s.style_id style_id then some s else find_style style_id rest

-- getStyleConfig
unfoldable pub get_style_config : ℤ → Option StyleConfigItem
unfolding find_style get_style_configs
get_style_config style_id = find_style style_id get_style_configs

-- settlementRewardPolicy
abbrev pub settlement_reward_policy : CombatConfig → CombatRewardPolicy
settlement_reward_policy cfg = record {
  gold_per_kill = cfg.gold_per_kill;
  exp_per_kill = cfg.exp_per_kill;
}
