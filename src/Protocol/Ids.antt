-- ===== src/Protocol/Ids.antt =====
-- internal/protocol/ids.go
use game_server_go.Base.{ℕ}

abbrev pub id_login_req : ℕ
id_login_req = 1001

abbrev pub id_login_resp : ℕ
id_login_resp = 1002

abbrev pub id_heartbeat_req : ℕ
id_heartbeat_req = 1003

abbrev pub id_heartbeat_resp : ℕ
id_heartbeat_resp = 1004

abbrev pub id_save_archive_req : ℕ
id_save_archive_req = 2001

abbrev pub id_save_archive_resp : ℕ
id_save_archive_resp = 2002

abbrev pub id_load_archive_req : ℕ
id_load_archive_req = 2003

abbrev pub id_load_archive_resp : ℕ
id_load_archive_resp = 2004

abbrev pub id_get_rank_req : ℕ
id_get_rank_req = 3001

abbrev pub id_get_rank_resp : ℕ
id_get_rank_resp = 3002

abbrev pub id_submit_score_req : ℕ
id_submit_score_req = 3003

abbrev pub id_submit_score_resp : ℕ
id_submit_score_resp = 3004

abbrev pub id_combat_result_req : ℕ
id_combat_result_req = 4001

abbrev pub id_combat_result_resp : ℕ
id_combat_result_resp = 4002

abbrev pub id_get_enemy_configs_req : ℕ
id_get_enemy_configs_req = 4003

abbrev pub id_get_enemy_configs_resp : ℕ
id_get_enemy_configs_resp = 4004

abbrev pub id_get_dungeon_config_req : ℕ
id_get_dungeon_config_req = 4005

abbrev pub id_get_dungeon_config_resp : ℕ
id_get_dungeon_config_resp = 4006

abbrev pub id_get_style_configs_req : ℕ
id_get_style_configs_req = 4007

abbrev pub id_get_style_configs_resp : ℕ
id_get_style_configs_resp = 4008

abbrev pub id_unlock_style_req : ℕ
id_unlock_style_req = 4009

abbrev pub id_unlock_style_resp : ℕ
id_unlock_style_resp = 4010

abbrev pub id_get_player_stats_req : ℕ
id_get_player_stats_req = 4011

abbrev pub id_get_player_stats_resp : ℕ
id_get_player_stats_resp = 4012

abbrev pub id_update_player_stats_req : ℕ
id_update_player_stats_req = 4013

abbrev pub id_update_player_stats_resp : ℕ
id_update_player_stats_resp = 4014

abbrev pub id_create_order_req : ℕ
id_create_order_req = 5001

abbrev pub id_create_order_resp : ℕ
id_create_order_resp = 5002

abbrev pub id_pay_result_notify : ℕ
id_pay_result_notify = 5003

abbrev pub id_gm_command_req : ℕ
id_gm_command_req = 6001

abbrev pub id_gm_command_resp : ℕ
id_gm_command_resp = 6002

abbrev pub id_error : ℕ
id_error = 9999
