-- ===== src/Cluster/Join/Once.antt =====
-- internal/cluster/join.go: `HandleJoinRequest` with a valid token, and the token afterwards.
use gothinkdb.Prelude.{
  ℕ, ◌≡◌, refl, sym, ap, ◌∙◌, String, true, false, not, none, some, ltb, str_eq, get_elem?, set,
  if◌then◌else◌, Bool-cases, Option-cases, inl, inr, get_elem?-set_same, eq_iff,
}
use gothinkdb.Prelude.Assoc.{lookup, insert, lookup-insert}
use gothinkdb.Prelude.Result.{ok, ok_eq}
use gothinkdb.Cluster.Types.{NodeInfo, NodeStatus, JoinRequest, JoinResponse}
use gothinkdb.Cluster.Token.{TokenManager, JoinToken, validate_token, mark_token_used, is_signed}
use gothinkdb.Cluster.Token.Valid.{used_token_invalid}
use gothinkdb.Cluster.Join.{JoinManager, new_node, refusal, admit, handle_join_request, get_members}

-- What `ValidateToken` found, if it let the token through.
pub record Validated (sign : String → String) (text : String) (now p : ℕ) (tm : TokenManager)
    : Type 0 where
  pub token : JoinToken
  pub registered : lookup text tm.tokens ≡ some p
  pub found : get_elem? tm.heap p ≡ some token
  pub in_time : not (ltb token.expires_at now) ≡ true
  pub signed : is_signed sign text ≡ true

pub validate_token-Validated :
    (sign : String → String) (text : String) (now p : ℕ) (tm : TokenManager)
    → validate_token sign text now tm ≡ ok p
    → Validated sign text now p tm
unfolding validate_token
validate_token-Validated sign text now p tm e = elim (Option-cases (lookup text tm.tokens)) [
  | inl missing ↦ cc (rw missing at e)
  | inr (q, registered) ↦ elim (Option-cases (get_elem? tm.heap q)) [
    | inl dangling ↦ cc (rw (registered, dangling) at e)
    | inr (t, found) ↦ elim (Bool-cases (not (ltb t.expires_at now))) [
      | inr late ↦ cc (rw (registered, found, late) at e)
      | inl in_time ↦ elim (Bool-cases (str_eq t.used_by "")) [
        | inr used ↦ cc (rw (registered, found, in_time, used) at e)
        | inl unused ↦ elim (Bool-cases (is_signed sign text)) [
          | inr forged ↦ cc (rw (registered, found, in_time, unused, forged) at e)
          | inl signed ↦
              let same = ok_eq (rw (registered, found, in_time, unused, signed) at e) in
              record {
                token = t;
                registered = registered ∙ ap some same;
                found = sym (ap (get_elem? tm.heap) same) ∙ found;
                in_time = in_time;
                signed = signed;
              }
        ]
      ]
    ]
  ]
]

abbrev mark_at : ℕ → JoinToken → String → ℕ → TokenManager → TokenManager
mark_at p t node_id now tm = record tm {
  heap = set tm.heap p (record t { used_by = node_id; used_at = some now });
}

mark_token_used-mark_at :
    (sign : String → String) (text node_id : String) (now p : ℕ) (tm : TokenManager)
    (v : Validated sign text now p tm)
    → mark_token_used text node_id now tm ≡ ok (mark_at p v.token node_id now tm)
unfolding mark_token_used
mark_token_used-mark_at sign text node_id now p tm v = rw (v.registered, v.found) refl

abbrev pub node_of : JoinRequest → ℕ → NodeInfo
node_of req now =
    new_node req.node_id req.address req.cluster_port req.http_port req.driver_port
      NodeStatus.active now

abbrev joined : ℕ → JoinToken → JoinRequest → ℕ → JoinManager → JoinManager
joined p t req now jm = record {
  token_manager = mark_at p t req.node_id now jm.token_manager;
  members = insert req.node_id (node_of req now) jm.members;
}

abbrev pub welcome : JoinToken → JoinRequest → JoinManager → JoinResponse
welcome t req jm = record {
  success = true;
  node_id = req.node_id;
  cluster_id = t.cluster_id;
  members = get_members jm;
  error = "";
}

handle_join_request-joined :
    (sign : String → String) (req : JoinRequest) (now p : ℕ) (jm : JoinManager)
    (v : Validated sign req.token now p jm.token_manager)
    → validate_token sign req.token now jm.token_manager ≡ ok p
    → lookup req.node_id jm.members ≡ none
    → handle_join_request sign req now jm
      ≡ ok (joined p v.token req now jm, welcome v.token req (joined p v.token req now jm))
unfolding handle_join_request admit get_members
handle_join_request-joined sign req now p jm v valid unknown =
    let marked = mark_token_used-mark_at sign req.token req.node_id now p jm.token_manager v in
    rw (valid, admit, unknown, v.found, marked) refl

-- The node has joined, and nobody else joins with its token.
pub record Joined (sign : String → String) (req : JoinRequest) (now : ℕ) (jm jm' : JoinManager)
    : Type 0 where
  pub members :
      (other : String)
      → lookup other jm'.members
        ≡ (if str_eq req.node_id other then some (node_of req now) else lookup other jm.members)
  pub used :
      (later : ℕ) (next : JoinRequest)
      → handle_join_request sign (record next { token = req.token }) later jm'
        ≡ ok (jm', refusal "invalid token")

refused_again :
    (sign : String → String) (req next : JoinRequest) (now later p : ℕ) (jm : JoinManager)
    (v : Validated sign req.token now p jm.token_manager)
    → str_eq req.node_id "" ≡ false
    → handle_join_request sign
        (record next { token = req.token })
        later
        (joined p v.token req now jm)
      ≡ ok (joined p v.token req now jm, refusal "invalid token")
unfolding handle_join_request
refused_again sign req next now later p jm v named =
    let marked = mark_token_used-mark_at sign req.token req.node_id now p jm.token_manager v in
    let invalid =
      used_token_invalid sign req.token req.node_id now later jm.token_manager
        (mark_at p v.token req.node_id now jm.token_manager) named marked in
    rw invalid refl

still_valid :
    (sign : String → String) (text node_id : String) (now p : ℕ) (tm : TokenManager)
    (v : Validated sign text now p tm)
    → node_id ≡ ""
    → validate_token sign text now (mark_at p v.token node_id now tm) ≡ ok p
unfolding validate_token
still_valid sign text node_id now p tm v nameless =
    let new = record v.token { used_by = node_id; used_at = some now } in
    let empty = (eq_iff node_id "").1 nameless in
    rw (v.registered, get_elem?-set_same tm.heap p v.token new v.found, v.in_time, empty, v.signed)
      refl

-- A request with a valid token and a new node id that is not empty is admitted: the node becomes an
-- active member, no other member changes, and in the state after it
-- every request with the same token, from any node and at any time, is refused and changes nothing.
pub handle_join_request-Joined :
    (sign : String → String) (req : JoinRequest) (now p : ℕ) (jm : JoinManager)
    → validate_token sign req.token now jm.token_manager ≡ ok p
    → lookup req.node_id jm.members ≡ none
    → str_eq req.node_id "" ≡ false
    → (jm' : JoinManager) × (t : JoinToken) × (handle_join_request sign req now jm
        ≡ ok (jm', welcome t req jm'))
      × Joined sign req now jm jm'
handle_join_request-Joined sign req now p jm valid unknown named =
    let v = validate_token-Validated sign req.token now p jm.token_manager valid in
    (
      joined p v.token req now jm,
      v.token,
      handle_join_request-joined sign req now p jm v valid unknown,
      record {
        members = λ other. lookup-insert req.node_id other (node_of req now) jm.members;
        used = λ later next. refused_again sign req next now later p jm v named;
      },
    )

-- A valid token with which a node joins whose id is empty stays valid: it is marked as used by the
-- empty name, which stands for an unused token.
pub nameless_join_keeps_token :
    (sign : String → String) (req : JoinRequest) (now p : ℕ) (jm : JoinManager)
    → validate_token sign req.token now jm.token_manager ≡ ok p
    → lookup req.node_id jm.members ≡ none
    → req.node_id ≡ ""
    → (jm' : JoinManager) × (t : JoinToken) × (handle_join_request sign req now jm
        ≡ ok (jm', welcome t req jm'))
      × (validate_token sign req.token now jm'.token_manager ≡ ok p)
nameless_join_keeps_token sign req now p jm valid unknown nameless =
    let v = validate_token-Validated sign req.token now p jm.token_manager valid in
    (
      joined p v.token req now jm,
      v.token,
      handle_join_request-joined sign req now p jm v valid unknown,
      still_valid sign req.token req.node_id now p jm.token_manager v nameless,
    )
