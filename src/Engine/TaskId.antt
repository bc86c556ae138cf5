-- ===== src/Engine/TaskId.antt =====
-- validateTaskId of src/workflows/executionArtifactCapture.ts.
use Prim.Native.Char.{code}
use codemachine_pipeline.Prelude.{ℕ, String, Bool, true, false, not, ◌&&◌, ◌||◌, leb, ◌==◌, str_eq}

-- `/^[a-zA-Z0-9_-]+$/`, a character at a time
is_id_char : ℕ → Bool
is_id_char c =
    (leb b'a' c && leb c b'z')
    || (leb b'A' c && leb c b'Z')
    || (leb b'0' c && leb c b'9')
    || c == b'_'
    || c == b'-'

unfoldable all_id_chars : String → Bool
unfolding is_id_char
all_id_chars String.[] = true
all_id_chars (String.◌∷◌ c s) = is_id_char (code c) && all_id_chars s

-- `id.includes('..')`, where the flag says that the character before was a dot
unfoldable includes_dots : Bool → String → Bool
includes_dots after_dot String.[] = false
includes_dots after_dot (String.◌∷◌ c s) =
    (after_dot && code c == b'.') || includes_dots (code c == b'.') s

unfoldable pub validate_task_id : String → Bool
unfolding all_id_chars includes_dots
validate_task_id id = not (str_eq id "") && all_id_chars id && not (includes_dots false id)
