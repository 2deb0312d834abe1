-- ===== src/Compat/Errors.antt =====
-- api/compat/errors.py: the `base_resp` catalogue and the envelope of a failure.
use minimax_music3_webui.Prelude.{ℕ, String, Option, none, some, List, [], ◌∷◌}
use minimax_music3_webui.Prelude.Int.{pos}
use minimax_music3_webui.Json.{Value, null, int, str, obj, Fields, end, field}

abbrev pub success_code : ℕ
success_code = 0

abbrev pub invalid_params : ℕ
invalid_params = 2013

abbrev pub local_failure : ℕ
local_failure = 5000

abbrev pub never_emitted : List ℕ
never_emitted = 1002 ∷ 1004 ∷ 1008 ∷ 1026 ∷ 2049 ∷ []

pub record CompatError : Type 0 where
  pub code : ℕ
  pub named : Option String
  pub message : String

unfoldable pub base_resp : ℕ → String → Fields
base_resp code msg = field "status_code" (int (pos code)) (field "status_msg" (str msg) end)

abbrev pub trace_value : Option String → Value
trace_value none = null
trace_value (some trace_id) = str trace_id

unfoldable pub error_envelope : ℕ → String → Option String → Fields
unfolding base_resp
error_envelope code msg trace_id = field "data" null (
    field "trace_id" (trace_value trace_id) (
      field "extra_info" null
        (field "analysis_info" null (field "base_resp" (obj (base_resp code msg)) end))))
