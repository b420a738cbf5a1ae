-- ===== src/Mcp/Access.antt =====
-- Who can change something by a tool.
use holypipe.Api.{Api}
use holypipe.Auth.{is_past, find_hash, bearer, ApiToken, AuthUser, Store, Hashes}
use holypipe.Prelude.{ℕ, ◌≡◌, String, false, Option, some}

-- A stored token that is not expired, and what it bears.
abbrev pub Bears : Hashes → Option String → ℕ → Store → AuthUser → Type 0
Bears h header now store u =
    (token : String) × (row : ApiToken) × (bearer header ≡ some token)
    × (find_hash (h.digest token) store.tokens ≡ some row)
    × (is_past row.expires_at now ≡ false)
    × (u.id ≡ row.user_id)
