-- ===== src/Config/Patterns.antt =====
-- config/normalize.ts: `SNOWFLAKE_PATTERN` and `MAPPING_KEY_PATTERN`.
use Prim.Native.Char.{Char}
use Prim.Native.String.{String, [], ◌∷◌, count}
use forum_relay.Common.{Bool, false, ◌&&◌, ◌||◌, leb}
use forum_relay.Common.Texts.{all_chars, is_between}

-- `/^\d{17,20}$/`
unfoldable pub is_snowflake : String → Bool
unfolding all_chars
is_snowflake s = all_chars (is_between "0" "9") s && leb 17 (count s) && leb (count s) 20

abbrev pub is_key_char : Char → Bool
is_key_char c = is_between "a" "z" c || is_between "0" "9" c

-- `/^[a-z0-9][a-z0-9_-]{0,63}$/`
unfoldable pub is_mapping_key : String → Bool
unfolding all_chars
is_mapping_key [] = false
is_mapping_key (c ∷ s) =
    is_key_char c
    && all_chars (λ d. is_key_char d || is_between "_" "_" d || is_between "-" "-" d) s
    && leb (count s) 63
