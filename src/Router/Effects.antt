-- ===== src/Router/Effects.antt =====
-- The effects that a machine asks of the driver, and what the driver answers
-- (rust/crates/vocoder-cordis/src/lib.rs).
use dsh_rs.Base.{ℕ, String, Option, List, Bool, ℤ}
use dsh_rs.Json.{Value}

abbrev pub EffectId : Type 0
EffectId = ℕ

abbrev pub Bytes : Type 0
Bytes = List ℕ

pub data WriteExpect : Type 0 where
  any absent : WriteExpect
  version : String → WriteExpect

pub data EffectError : Type 0 where
  not_found exists : EffectError
  other : String → EffectError

pub message : EffectError → String
message EffectError.not_found = "No such file or directory (os error 2)"
message EffectError.exists = "File exists (os error 17)"
message (EffectError.other m) = m

pub record DirEntry : Type 0 where
  pub name : String
  pub kind : String
  pub bytes : ℕ

pub data EffectResult : Type 0 where
  text : String → EffectResult
  bytes : Bytes → EffectResult
  entries : List String → EffectResult
  dir_entries : List DirEntry → EffectResult
  paths : List String → EffectResult
  -- canonical, is_dir, bytes, version
  stat : String → Bool → ℕ → String → EffectResult
  -- data, eof
  range : Bytes → Bool → EffectResult
  done : EffectResult
  -- status, body
  http_response : ℕ → String → EffectResult
  -- exit_code, signal, stdout, stderr, truncated, timed_out, aborted, spill_path
  process_done :
      Option ℤ → Option ℤ → String → String → Bool → Bool → Bool → Option String → EffectResult
  probe : Bool → EffectResult
  process_started : ℕ → EffectResult
  -- running, stdout_delta, stderr_delta, exit_code, signal, truncated, spill_path
  process_chunk : Bool → String → String → Option ℤ → Option ℤ → Bool → Option String → EffectResult
  failed : EffectError → EffectResult

abbrev pub Pairs : Type 0
Pairs = List (String × String)

pub data RealizeRequest : Type 0 where
  -- level, message
  log : String → String → RealizeRequest
  read_text read_bytes : String → RealizeRequest
  -- path, offset, limit
  read_range : String → ℕ → Option ℕ → RealizeRequest
  write_text : String → String → WriteExpect → RealizeRequest
  write_bytes : String → Bytes → RealizeRequest
  create_dir_all create_dir remove_dir_all remove_file : String → RealizeRequest
  copy_tree : String → String → RealizeRequest
  stat list_dir list_dir_detailed list_tree : String → RealizeRequest
  send_text : String → RealizeRequest
  -- stream_id, endpoint, payload
  open_stream : String → String → Value → RealizeRequest
  cancel_stream : String → RealizeRequest
  -- url, headers, body
  fetch_json fetch_stream : String → Pairs → String → RealizeRequest
  -- argv, workdir, env, timeout_ms, stdout_max_bytes, spill_dir, stdin, kill_key
  process_exec :
      List String
      → Option String
      → Pairs
      → Option ℕ
      → Option ℕ
      → Option String
      → Option String
      → Option String
      → RealizeRequest
  probe_program : String → RealizeRequest
  -- argv, workdir, env, stdout_max_bytes, spill_dir, kill_key
  process_start :
      List String
      → Option String
      → Pairs
      → Option ℕ
      → Option String
      → Option String
      → RealizeRequest
  process_read process_kill : ℕ → RealizeRequest
