-- ===== src/Tests/Sessions.antt =====
-- Tests of a session and of its server (session/session.go, session/handler_player_auth_input.go,
-- gobds/server.go, gobds/gobds.go, gobds/afk.go).
use gobds.Base.{
  refuse_text, ◌+◌, ◌*◌, ◌≤◌, ◌≡◌, ◌≢◌, refl, String, true, false, Option, none, some, List, [],
  ◌∷◌, contains, string_eq, if◌then◌else◌,
}
use gobds.Base.Int.{pos, ltb_ℤ}
use gobds.Clock.{second}
use gobds.Float.{whole}
use gobds.Traffic.Config.{default_traffic_config}
use gobds.Traffic.Bucket.{empty_bucket}
use gobds.Session.State.{Platform, AfkState, CorrectiveKey, Session}
use gobds.Session.Corrective.{last_correction}
use gobds.Session.Corrective.Spacing.{Request, allowed_at, Spaced, allowed_at-Spaced}
use gobds.Session.Handlers.AuthInput.{PlayerAuthInput, handle_player_auth_input}
use gobds.Session.Handlers.AuthInput.Forwarding.{forwarded, handle_player_auth_input-forwarded}
use gobds.Server.{reserve_xuid}
use gobds.Server.Reservations.{
  admit_xuid, State, admits, Reachable, starts, steps, count, count-live,
}
use gobds.Admission.{ServerStatus, AdmissionConfig, Joining, decided, accept}
use gobds.Admission.Slots.{accept-secured_slots}
use gobds.Afk.{AfkTimer, Fullness, Player, evaluate_afk}
use gobds.Afk.Kicks.{IsFair, Measured, evaluate_afk-IsFair}
use gobds.Afk.Warnings.{
  warnings_while_idle, is_approaching, is_marked, count_of, warnings_while_idle-once,
}
use gobds.Tests.{zero_of, spot, home_factory}

abbrev pub platform : Platform
platform = record {
  wild = zero_of;
  refilled = λ rate d tokens. tokens;
  vec3_approx_equal = λ v w. true;
  float_equal = λ v w. true;
  block_by_runtime_id = λ id. none;
  standard_range = λ id. some (pos 0, pos 256);
  game_type_creative = pos 1;
  permission_level_operator = pos 2;
  player_action_start_break = pos 0;
  player_action_predict_destroy_block = pos 26;
  player_action_continue_destroy_block = pos 27;
  inventory_action_source_world = pos 2;
  window_id_inventory = pos 0;
  use_item_action_click_block = pos 0;
  trigger_type_player_input = pos 1;
  use_item_on_entity_action_interact = pos 0;
  use_item_on_entity_action_attack = pos 1;
  container_dynamic = pos 63;
  sub_chunk_result_success = pos 1;
  deny_runtime_id = 777;
  hashed_deny_runtime_id = 778;
}

abbrev idle_state : AfkState
idle_state = record {
  last_move_time = 5;
  last_position = spot 3 4;
  last_yaw = whole (pos 0);
  last_pitch = whole (pos 0);
  warned_approaching = false;
  marked_afk = false;
  warned_final = false;
}

abbrev pub session : Session
session = record {
  xuid = "8";
  display_name = "Steve";
  locale = "en_US";
  entity_unique_id = pos 1;
  dimensions = [];
  hashed_ids = false;
  entities = record { entities = []; runtime_id_by_unique_id = [] };
  claims = some home_factory;
  border = some (record { min_x = pos 0; min_z = pos 0; max_x = pos 100; max_z = pos 100 });
  claim_prefilter = true;
  claim_deny_rendering = true;
  afk = idle_state;
  corrective = [];
  traffic = record {
    config = default_traffic_config;
    buckets = λ i. empty_bucket;
    session = record {
      observed = λ i. 0;
      exceeded = λ i. 0;
      enforced = λ i. 0;
      malformed = λ i. 0;
    };
    aggregate = none;
  };
  last_forwarded_ping = pos 0;
  player = record { dimension = pos 0; gamemode = pos 1; last_drop = 0; operator = false };
  items = [];
  command_cache = [];
  written = [];
}

abbrev requests : List Request
requests =
    (pos 0, record { x = pos 1; z = pos 1 }, 3 * second)
    ∷ (pos 0, record { x = pos 1; z = pos 1 }, 3 * second + 1)
    ∷ (pos 1, record { x = pos 1; z = pos 1 }, 3 * second + 2)
    ∷ []

abbrev key : CorrectiveKey
key = record { dimension = pos 0; x = pos 1; z = pos 1 }

allowed_at-Spaced_example :
    Spaced
      (pos second)
      (last_correction key session.corrective)
      (allowed_at key (pos second) requests session)
allowed_at-Spaced_example = allowed_at-Spaced key (pos second) requests session

-- One block of a claim, one outside it and one outside the border.
abbrev packet : PlayerAuthInput
packet = record {
  position = spot 3 4;
  yaw = whole (pos 0);
  pitch = whole (pos 0);
  tick = 20;
  block_actions = some (
      record { action = pos 0; block_pos = record { x = pos 3; y = pos 64; z = pos 4 } }
      ∷ record { action = pos 0; block_pos = record { x = pos 30; y = pos 64; z = pos 4 } }
      ∷ record { action = pos 26; block_pos = record { x = pos 300; y = pos 64; z = pos 4 } }
      ∷ []);
}

handle_player_auth_input-forwarded_example :
    (handle_player_auth_input platform (pos 12) 6 (pos 1) packet session).1
    ≡ record packet { block_actions = forwarded platform 6 session packet.block_actions }
handle_player_auth_input-forwarded_example =
    handle_player_auth_input-forwarded platform 6 (pos 12) (pos 1) packet session home_factory refl

abbrev opened : State
opened = record { server = record { xuids = []; sessions = [] }; live = [] }

abbrev joined : State
joined = record { server = (admit_xuid true "8" opened.server).0; live = "8" ∷ [] }

joined-Reachable : Reachable true joined
unfolding admit_xuid reserve_xuid string_eq
joined-Reachable = steps opened joined (starts []) (admits "8" opened refl)

abbrev eight : String
eight = "8"

eight-named : eight ≢ ""
unfolding string_eq
eight-named h = refuse_text eight "" refl h

count-live_example : count eight joined.live ≡ (if contains joined.server.xuids eight then 1 else 0)
count-live_example = count-live joined eight joined-Reachable eight-named

abbrev listed : AdmissionConfig
listed = record {
  whitelist = some ("Steve" ∷ []);
  secured_slots = pos 5;
  authentication_enabled = some false;
}

abbrev steve : Joining
steve = record {
  display_name = "steve";
  address = "203.0.113.7";
  vpn_answer = none;
  authentication_answer = decided true;
  status = record { player_count = pos 18; max_players = pos 20 };
  dials = true;
  starts = true;
}

accept-secured_slots_example :
    accept (record listed { secured_slots = pos 0 }) steve
    ≡ accept (record listed { secured_slots = pos 19 }) steve
accept-secured_slots_example = accept-secured_slots listed steve (pos 0) (pos 19)

abbrev timer : AfkTimer
timer = record {
  warn_approaching = pos 10;
  mark_afk = pos 20;
  final_warning = pos 30;
  timeout_duration = pos 40;
}

abbrev half_full : Fullness
half_full = record { below = λ count max. ltb_ℤ count (pos 2); threshold = λ max. pos 2 }

abbrev crowded : Option ServerStatus
crowded = some (record { player_count = pos 3; max_players = pos 4 })

abbrev players : List Player
players =
    record { pointer = 1; afk = record idle_state { last_move_time = 50 } }
    ∷ record { pointer = 2; afk = idle_state }
    ∷ record { pointer = 3; afk = record idle_state { last_move_time = 9 } }
    ∷ []

evaluate_afk-IsFair_example :
    let e = evaluate_afk timer half_full crowded 60 players in
    IsFair timer e × Measured half_full crowded e
evaluate_afk-IsFair_example = evaluate_afk-IsFair timer half_full crowded 60 players

warnings_while_idle-once_example :
    let p : Player = record { pointer = 2; afk = idle_state } in
    let ws = warnings_while_idle timer (pos 12 ∷ pos 14 ∷ pos 22 ∷ []) p in
    (count_of is_approaching ws ≤ 1) × (count_of is_marked ws ≤ 1)
warnings_while_idle-once_example =
    warnings_while_idle-once timer (pos 12 ∷ pos 14 ∷ pos 22 ∷ [])
      (record { pointer = 2; afk = idle_state })
