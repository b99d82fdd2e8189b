-- ===== src/Cluster/Token/Valid.antt =====
-- internal/cluster/token.go: the tokens that `ValidateToken` lets through.
use Prim.Native.Char.{code}
use Prim.Native.String.{◌++◌ as ◌+++◌}
use Prim.Native.String.append
use text.Mathlib.TextPositions.{eq_refl}
use gothinkdb.Prelude.{
  ℕ, ◌≡◌, List, refl, sym, String, Bool, true, false, not, ◌||◌, none, some, ltb, ◌==◌,
  get_elem?-append_last, get_elem?-set_same, str_eq, length, get_elem?, set, if◌then◌else◌, arith,
  Option-cases, inl, inr,
}
use gothinkdb.Prelude.Assoc.{lookup, insert, erase, lookup-insert, lookup-erase}
use gothinkdb.Prelude.Result.{Result, ok, err, ok_eq, require, ◌>>◌}
use gothinkdb.Cluster.Token.{
  JoinToken, TokenManager, split_token, join_token_text, payload_of, token_text, generate_token,
  expiry, is_signed, validate_token, mark_token_used, revoke_token,
}

-- The text has a dot.
unfoldable pub has_dot : String → Bool
has_dot String.[] = false
has_dot (String.◌∷◌ c s) = let rest = has_dot s in code c == b'.' || rest

split_token-none : (s : String) → has_dot s ≡ false → split_token s ≡ none
unfolding has_dot split_token
split_token-none String.[] h = refl
split_token-none (String.◌∷◌ c s) h = ground (arith, split_token-none s)

split_token-dot : (s : String) → has_dot s ≡ false → split_token ("." +++ s) ≡ some ("", s)
unfolding split_token
split_token-dot s h = rw (append.cons, append.nil, split_token-none s h) refl

-- A payload and a signature without a dot are found again, dots of the payload included.
split_token-join_token_text :
    (payload signature : String)
    → has_dot signature ≡ false
    → split_token (join_token_text payload signature) ≡ some (payload, signature)
unfolding join_token_text split_token
split_token-join_token_text String.[] signature h = rw append.nil (split_token-dot signature h)
split_token-join_token_text (String.◌∷◌ c s) signature h =
    rw (append.cons, split_token-join_token_text s signature h) refl

is_signed-token_text :
    (sign : String → String) (decimal : ℕ → String) (id : String) (now : ℕ) (tm : TokenManager)
    → ((payload : String) → has_dot (sign payload) ≡ false)
    → is_signed sign (token_text sign decimal id now tm) ≡ true
unfolding is_signed token_text
is_signed-token_text sign decimal id now tm plain =
    let payload = payload_of sign decimal id now tm in
    rw (is_signed, split_token-join_token_text payload (sign payload) (plain payload))
      (eq_refl (sign payload))

-- What `MarkTokenUsed` did, if it returned.
pub record Marked (text node_id : String) (now : ℕ) (tm tm' : TokenManager) : Type 0 where
  pub pointer : ℕ
  pub old : JoinToken
  pub registered : lookup text tm.tokens ≡ some pointer
  pub found : get_elem? tm.heap pointer ≡ some old
  pub result : tm' ≡ record tm {
    heap = set tm.heap pointer (record old { used_by = node_id; used_at = some now });
  }

pub mark_token_used-Marked :
    (text node_id : String) (now : ℕ) (tm tm' : TokenManager)
    → mark_token_used text node_id now tm ≡ ok tm'
    → Marked text node_id now tm tm'
unfolding mark_token_used
mark_token_used-Marked text node_id now tm tm' e = elim (Option-cases (lookup text tm.tokens)) [
  | inl missing ↦ cc (rw missing at e)
  | inr (p, registered) ↦ elim (Option-cases (get_elem? tm.heap p)) [
    | inl dangling ↦ cc (rw (registered, dangling) at e)
    | inr (t, found) ↦ record {
      pointer = p;
      old = t;
      registered = registered;
      found = found;
      result = sym (ok_eq (rw (registered, found) at e));
    }
  ]
]

either_err : (test : Bool) {next : Result ℕ} → next ≡ err → (require test >> next) ≡ err
either_err true h = h
either_err false h = refl

-- A token that is marked as used by a node with a name is never valid in the state after.
pub used_token_invalid :
    (sign : String → String) (text node_id : String) (now later : ℕ) (tm tm' : TokenManager)
    → str_eq node_id "" ≡ false
    → mark_token_used text node_id now tm ≡ ok tm'
    → validate_token sign text later tm' ≡ err
unfolding validate_token
used_token_invalid sign text node_id now later tm tm' named e =
    let m = mark_token_used-Marked text node_id now tm tm' e in
    let new = record m.old { used_by = node_id; used_at = some now } in
    rw (m.result, m.registered, get_elem?-set_same tm.heap m.pointer m.old new m.found, named)
      (either_err (not (ltb m.old.expires_at later)) refl)

module _ (sign : String → String) (decimal : ℕ → String) where
  generate_token-validates :
      (id created_by : String) (expires_in now later : ℕ) (tm : TokenManager)
      → ((payload : String) → has_dot (sign payload) ≡ false)
      → validate_token sign
          (token_text sign decimal id now tm)
          later
          (generate_token sign decimal id created_by expires_in now tm)
        ≡ (if ltb (expiry now expires_in) later then err else ok (length tm.heap))
  unfolding validate_token generate_token
  generate_token-validates id created_by expires_in now later tm plain =
      let text = token_text sign decimal id now tm in
      rw
        (
          lookup-insert text text (length tm.heap) tm.tokens,
          eq_refl text,
          get_elem?-append_last,
          is_signed-token_text sign decimal id now tm plain,
        )
        (either_late (ltb (expiry now expires_in) later) (length tm.heap))
    where
      either_late :
          (late : Bool) (p : ℕ) → (require (not late) >> ok p) ≡ (if late then err else ok p)
      either_late true p = refl
      either_late false p = refl

-- The entry that `GenerateToken` adds.
abbrev new_token : String → String → String → ℕ → ℕ → TokenManager → JoinToken
new_token id text created_by expires_in now tm = record {
  id = id;
  token = text;
  cluster_id = tm.cluster_id;
  created_at = now;
  expires_at = expiry now expires_in;
  used_by = "";
  used_at = none;
  created_by = created_by;
}

mark_token_used-found :
    (text node_id : String) (now p : ℕ) (t : JoinToken) (tm : TokenManager)
    → lookup text tm.tokens ≡ some p
    → get_elem? tm.heap p ≡ some t
    → mark_token_used text node_id now tm
      ≡ ok (record tm { heap = set tm.heap p (record t { used_by = node_id; used_at = some now }) })
unfolding mark_token_used
mark_token_used-found text node_id now p t tm registered found = rw (registered, found)

revoke_token-found :
    (id : String) (p : ℕ) (t : JoinToken) (tm : TokenManager)
    → lookup id tm.tokens_by_id ≡ some p
    → get_elem? tm.heap p ≡ some t
    → revoke_token id tm
      ≡ ok (record tm { tokens = erase t.token tm.tokens; tokens_by_id = erase id tm.tokens_by_id })
unfolding revoke_token
revoke_token-found id p t tm registered found = rw (registered, found)

validate_token-erased :
    (sign : String → String) (text : String) (now : ℕ) (tm : TokenManager)
    → lookup text tm.tokens ≡ none
    → validate_token sign text now tm ≡ err
unfolding validate_token
validate_token-erased sign text now tm missing = rw missing

lookup-insert_same :
    (key : String) (p : ℕ) (entries : List (String × ℕ))
    → lookup key (insert key p entries) ≡ some p
lookup-insert_same key p entries = rw (lookup-insert key key p entries, eq_refl key)

lookup-erase_same :
    (key : String) (entries : List (String × ℕ)) → lookup key (erase key entries) ≡ none
lookup-erase_same key entries = rw (lookup-erase key key entries, eq_refl key)

-- In the state that `GenerateToken` leaves, if no signature has a dot, validation of the new token
-- finds its entry at each time up to its expiry, and is an error at each later time. There
-- `MarkTokenUsed`, by a node with a name, and `RevokeToken` of the token's id both succeed, and in the
-- state after either of them validation of the token is an error at every time.
pub validate_token-generate_token :
    (sign : String → String) (decimal : ℕ → String) (id created_by node_id : String)
    (expires_in now at later : ℕ) (tm : TokenManager)
    → ((payload : String) → has_dot (sign payload) ≡ false)
    → str_eq node_id "" ≡ false
    → let text = token_text sign decimal id now tm in
      let made = generate_token sign decimal id created_by expires_in now tm in
      (used : TokenManager) × (revoked : TokenManager) × (validate_token sign text later made
        ≡ (if ltb (expiry now expires_in) later then err else ok (length tm.heap)))
      × (mark_token_used text node_id at made ≡ ok used)
      × (revoke_token id made ≡ ok revoked)
      × (validate_token sign text later used ≡ err)
      × (validate_token sign text later revoked ≡ err)
unfolding generate_token
validate_token-generate_token sign decimal id created_by node_id expires_in now at later tm plain
      named =
    let text = token_text sign decimal id now tm in
    let made = generate_token sign decimal id created_by expires_in now tm in
    let p = length tm.heap in
    let t = new_token id text created_by expires_in now tm in
    let found : get_elem? made.heap p ≡ some t = get_elem?-append_last tm.heap t in
    let marked =
      mark_token_used-found text node_id at p t made (lookup-insert_same text p tm.tokens) found in
    (
      record made { heap = set made.heap p (record t { used_by = node_id; used_at = some at }) },
      record made { tokens = erase text made.tokens; tokens_by_id = erase id made.tokens_by_id },
      generate_token-validates sign decimal id created_by expires_in now later tm plain,
      marked,
      revoke_token-found id p t made (lookup-insert_same id p tm.tokens_by_id) found,
      used_token_invalid sign text node_id at later made _ named marked,
      validate_token-erased sign text later _ (lookup-erase_same text made.tokens),
    )
