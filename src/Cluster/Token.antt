-- ===== src/Cluster/Token.antt =====
-- internal/cluster/token.go. The two maps of the manager share their tokens, so the tokens live in a
-- heap and the maps hold pointers. The HMAC of a payload under the manager's secret, in hexadecimal,
-- is the parameter `sign`, the id made by the uuid package an argument, and the decimal print of
-- `Sprintf` the parameter `decimal`. A method reads the clock once, as `now`.
pub mod Valid
use Prim.Native.Char.{Char, code}
use Prim.Native.String.{◌++◌ as ◌+++◌}
use gothinkdb.Prelude.{
  ℕ, zero, suc, ◌+◌, String, Bool, true, false, not, ◌&&◌, ◌||◌, Option, none, some, List, [], ◌∷◌,
  ◌++◌, ltb, ◌==◌, str_eq, length, get_elem?, set, if◌then◌else◌,
}
use gothinkdb.Prelude.Assoc.{lookup, insert, erase, values_where}
use gothinkdb.Prelude.Result.{Result, ok, err, panic, ◌>>=◌, ◌>>◌, or_panic, or_err, require}

pub record JoinToken : Type 0 where
  pub id : String
  pub token : String
  pub cluster_id : String
  pub created_at : ℕ
  pub expires_at : ℕ
  pub used_by : String
  pub used_at : Option ℕ
  pub created_by : String

pub record TokenManager : Type 0 where
  pub heap : List JoinToken
  pub tokens : List (String × ℕ)
  pub tokens_by_id : List (String × ℕ)
  pub cluster_id : String

-- `NewTokenManager`
unfoldable pub new_token_manager : String → TokenManager
new_token_manager cluster_id = record {
  heap = [];
  tokens = [];
  tokens_by_id = [];
  cluster_id = cluster_id;
}

-- The character c stands before a text that was split, or not.
abbrev pub split_behind : Char → String → Option (String × String) → Option (String × String)
split_behind c s (some (payload, signature)) = some (String.◌∷◌ c payload, signature)
split_behind c s none = if code c == b'.' then some ("", s) else none

-- `splitToken`: the text before and after the last dot. `none` is the nil slice.
unfoldable pub split_token : String → Option (String × String)
split_token String.[] = none
split_token (String.◌∷◌ c s) = split_behind c s (split_token s)

-- 24 hours.
abbrev pub day : ℕ
day = 86_400_000_000_000

-- `expiresIn == 0` stands for 24 hours.
unfoldable pub expiry : ℕ → ℕ → ℕ
expiry now expires_in = if expires_in == 0 then now + day else now + expires_in

-- `fmt.Sprintf("%s.%s", payload, signature)`
unfoldable pub join_token_text : String → String → String
join_token_text payload signature = payload +++ ("." +++ signature)

module _ (sign : String → String) (decimal : ℕ → String) where
  -- The payload of `GenerateToken`.
  unfoldable pub payload_of : String → ℕ → TokenManager → String
  payload_of id now tm = id +++ (":" +++ (tm.cluster_id +++ (":" +++ decimal now)))

  unfoldable pub token_text : String → ℕ → TokenManager → String
  token_text id now tm = join_token_text (payload_of id now tm) (sign (payload_of id now tm))

  -- `GenerateToken`; the new token is the last of the heap.
  unfoldable pub generate_token : String → String → ℕ → ℕ → TokenManager → TokenManager
  generate_token id created_by expires_in now tm = record tm {
    heap =
        tm.heap
        ++ record {
          id = id;
          token = token_text id now tm;
          cluster_id = tm.cluster_id;
          created_at = now;
          expires_at = expiry now expires_in;
          used_by = "";
          used_at = none;
          created_by = created_by;
        }
          ∷ [];
    tokens = insert (token_text id now tm) (length tm.heap) tm.tokens;
    tokens_by_id = insert id (length tm.heap) tm.tokens_by_id;
  }

module _ (sign : String → String) where
  -- The signature is that of the payload.
  unfoldable pub is_signed : String → Bool
  is_signed text = elim (split_token text) [
    | none ↦ false
    | some parts ↦ str_eq parts.1 (sign parts.0)
  ]

  -- `ValidateToken`: the pointer of the token, or an error.
  unfoldable pub validate_token : String → ℕ → TokenManager → Result ℕ
  validate_token text now tm = do
    p ← or_err (lookup text tm.tokens)
    t ← or_panic (get_elem? tm.heap p)
    require (not (ltb t.expires_at now))
    require (str_eq t.used_by "")
    require (is_signed text)
    ok p

-- `MarkTokenUsed`
unfoldable pub mark_token_used : String → String → ℕ → TokenManager → Result TokenManager
mark_token_used text node_id now tm = do
  p ← or_err (lookup text tm.tokens)
  t ← or_panic (get_elem? tm.heap p)
  ok (record tm { heap = set tm.heap p (record t { used_by = node_id; used_at = some now }) })

-- `RevokeToken`
unfoldable pub revoke_token : String → TokenManager → Result TokenManager
revoke_token id tm = do
  p ← or_err (lookup id tm.tokens_by_id)
  t ← or_panic (get_elem? tm.heap p)
  ok (record tm { tokens = erase t.token tm.tokens; tokens_by_id = erase id tm.tokens_by_id })

abbrev pub is_listed_at : List JoinToken → ℕ → ℕ → Bool
is_listed_at heap now p = elim (get_elem? heap p) [
  | none ↦ false
  | some t ↦ not (ltb t.expires_at now) && str_eq t.used_by ""
]

-- `ListTokens`, as pointers.
unfoldable pub list_tokens : ℕ → TokenManager → List ℕ
list_tokens now tm = values_where (is_listed_at tm.heap now) tm.tokens

-- The deletions of `CleanupExpiredTokens`, for the entries that the loop still has before it.
unfoldable pub cleanup_loop : ℕ → List (String × ℕ) → TokenManager → TokenManager
cleanup_loop now [] tm = tm
cleanup_loop now (entry ∷ entries) tm = cleanup_loop now entries (elim (get_elem? tm.heap entry.1) [
  | none ↦ tm
  | some t ↦
      if ltb t.expires_at now
      then record tm { tokens = erase entry.0 tm.tokens; tokens_by_id = erase t.id tm.tokens_by_id }
      else tm
])

-- `CleanupExpiredTokens`
unfoldable pub cleanup_expired_tokens : ℕ → TokenManager → TokenManager
cleanup_expired_tokens now tm = cleanup_loop now tm.tokens tm
