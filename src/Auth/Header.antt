-- ===== src/Auth/Header.antt =====
-- The Authorization header of `get_current_user` in auth.py: `authorization.lower()` starts with
-- "bearer ", and the token is `authorization[7:].strip()`. A header is Latin-1.
use Prim.Native.Char.{code}
use holypipe.Prelude.{
  ℕ, ◌+◌, String, Bool, ◌&&◌, ◌||◌, Option, none, some, leb, ◌==◌, if◌then◌else◌, str_eq, ◌≡◌, refl,
}

-- `str.isspace` on a Latin-1 character.
is_space : ℕ → Bool
is_space c = (leb 9 c && leb c 13) || (leb 28 c && leb c 32) || c == 133 || c == 160

lstrip : String → String
lstrip String.[] = ""
lstrip (String.◌∷◌ c s) = let rest = lstrip s in if is_space (code c) then rest else String.◌∷◌ c s

rstrip : String → String
rstrip String.[] = ""
rstrip (String.◌∷◌ c s) =
    let rest = rstrip s in if is_space (code c) && str_eq rest "" then "" else String.◌∷◌ c rest

pub strip : String → String
unfolding is_space lstrip rstrip
strip s = rstrip (lstrip s)

-- `str.lower` of a character; the letters that are no ASCII become none of "bearer ".
lower : ℕ → ℕ
lower c = if leb b'A' c && leb c b'Z' then c + 32 else c

-- What follows a prefix in lower case.
after_prefix : String → String → Option String
after_prefix String.[] s = some s
after_prefix (String.◌∷◌ p ps) String.[] = none
after_prefix (String.◌∷◌ p ps) (String.◌∷◌ c s) =
    let rest = after_prefix ps s in if lower (code c) == code p then rest else none

unfoldable pub bearer_token : String → Option String
unfolding lower after_prefix strip
bearer_token header = elim (after_prefix "bearer " header) [
  | none ↦ none
  | some rest ↦ some (strip rest)
]

bearer_token-upper : bearer_token "BEARER  hp_pat_x " ≡ some "hp_pat_x"
unfolding bearer_token
bearer_token-upper = refl

bearer_token-basic : bearer_token "Basic abc" ≡ none
unfolding bearer_token
bearer_token-basic = refl
