-- ===== src/Recursion/Lineage.antt =====
-- src/recursiveControl.ts, src/server.ts and src/runTask.ts: the tree of runs that delegations make.
use subagent.Common.{
  ℕ, suc, ◌≤◌, ◌<◌, String, ◌==◌, true, false, ◌&&◌, Option, none, some, List, [], ◌∷◌, leb,
  if◌then◌else◌, if-satisfies, Result, ok, err, arith, ◌≡◌, refl, subst, ap, ◌∙◌, Bool-cases, inl,
  inr, eq_iff,
}
use subagent.Common.Json.{Json}
use subagent.Recursion.{
  Platform, RecursiveRpcMethod, delegate, rejoin, RecursiveCallerContext, Envelope, Handle,
}
use subagent.Recursion.Caller.{validate_envelope}
use subagent.Recursion.Server.{
  RecursiveControlHandlers, RecursiveRpcResponse, is_delegate, handler_of, respond, handle_envelope,
  handle_rpc_line,
}
use subagent.Recursion.Delegation.{
  RunTask, find_task, is_caller, checked_caller, active_recursive_caller, authorize, Schedule,
  lineage_for_recursive_delegate, scheduled, delegated, delegate_from, delegate_run, ControlEvent,
  line_received, run_ended, end_run, control_step, control_steps,
}

-- What a line can make of a state: what the handlers make of it, a delegation below the limit only.
handle_rpc_line-keeps :
    {S : Type 0} (P : S → Type 0) (p : Platform) (handle : Handle)
    (handlers : RecursiveControlHandlers S) (random spare : String) (line : Option Json) (s : S)
    → ((caller : RecursiveCallerContext) (params : Json)
        → caller.recursion_depth < handle.max_depth
        → P (handlers.on_delegate caller params s).1)
    → ((caller : RecursiveCallerContext) (params : Json) → P (handlers.on_rejoin caller params s).1)
    → P s
    → P (handle_rpc_line p handle handlers random spare line s).1
unfolding handle_rpc_line handle_envelope
handle_rpc_line-keeps P p handle handlers random spare none s d r h = h
handle_rpc_line-keeps {S = S} P p handle handlers random spare (some line) s d r h =
    of (validate_envelope spare handle.token (some line))
  where
    responded : (e : Envelope) (x : Result Json × S) → P x.1 → P (respond p e x).1
    responded e (ok v, t) k = k
    responded e (err f, t) k = k

    method :
        (e : Envelope) (m : RecursiveRpcMethod)
        → (is_delegate m && leb handle.max_depth e.caller.recursion_depth) ≡ false
        → P (handler_of handlers m e.caller e.params s).1
    method e delegate g = d e.caller e.params (ground (arith, g))
    method e rejoin g = r e.caller e.params

    of : (x : Result Envelope) → P (handle_envelope p handle handlers random x s).1
    of (err f) = h
    of (ok e) =
        if-satisfies (λ (y : RecursiveRpcResponse × S). P y.1)
          (is_delegate e.method && leb handle.max_depth e.caller.recursion_depth) _ _ (λ g. h)
          (λ g. responded e _ (method e e.method g))

-- The root and the depth of a run.
unfoldable pub lineage_of : String → List RunTask → Option (String × ℕ)
lineage_of run_id [] = none
lineage_of run_id (t ∷ ts) =
    let rest = lineage_of run_id ts in
    if t.run_id == run_id then some (t.root_run_id, t.recursion_depth) else rest

-- A run is a root of its own at depth 0, or has a parent among the earlier runs, whose root it has and
-- below which it is by one.
pub data IsPlaced (t : RunTask) (earlier : List RunTask) : Type 0 where
  as_root :
      t.parent_run_id ≡ none → t.root_run_id ≡ t.run_id → t.recursion_depth ≡ 0 → IsPlaced t earlier
  as_child :
      (parent : String) (depth : ℕ)
      → t.parent_run_id ≡ some parent
      → lineage_of parent earlier ≡ some (t.root_run_id, depth)
      → t.recursion_depth ≡ suc depth
      → IsPlaced t earlier

-- Every run of a list, the newest first, is placed among the earlier ones, at most so deep.
abbrev pub IsLineage : ℕ → List RunTask → Type 0
IsLineage limit [] = Unit
IsLineage limit (t ∷ ts) = IsPlaced t ts × (t.recursion_depth ≤ limit) × IsLineage limit ts

lineage_of-end_run :
    (run_id ended : String) (ts : List RunTask)
    → lineage_of run_id (end_run ended ts) ≡ lineage_of run_id ts
unfolding lineage_of end_run
lineage_of-end_run run_id ended [] = refl
lineage_of-end_run run_id ended (t ∷ ts) = elim (Bool-cases (t.run_id == ended)) [
  | inl e ↦ rw (e, lineage_of-end_run run_id ended ts) refl
  | inr e ↦ rw (e, lineage_of-end_run run_id ended ts) refl
]

IsPlaced-end_run :
    (ended : String) (t : RunTask) (ts : List RunTask)
    → IsPlaced t ts
    → IsPlaced (if t.run_id == ended then record t { is_active = false } else t) (end_run ended ts)
IsPlaced-end_run ended t ts h =
    if-satisfies (λ (u : RunTask). IsPlaced u (end_run ended ts)) (t.run_id == ended) _ _
      (λ e. of_inactive h) (λ e. of h)
  where
    of : IsPlaced t ts → IsPlaced t (end_run ended ts)
    of (as_root a b c) = as_root a b c
    of (as_child q d a b c) = as_child q d a (lineage_of-end_run q ended ts ∙ b) c

    of_inactive : IsPlaced t ts → IsPlaced (record t { is_active = false }) (end_run ended ts)
    of_inactive (as_root a b c) = as_root a b c
    of_inactive (as_child q d a b c) = as_child q d a (lineage_of-end_run q ended ts ∙ b) c

end_run-IsLineage :
    (limit : ℕ) (ended : String) (ts : List RunTask)
    → IsLineage limit ts
    → IsLineage limit (end_run ended ts)
unfolding end_run
end_run-IsLineage limit ended [] h = tt
end_run-IsLineage limit ended (t ∷ ts) h = (
  IsPlaced-end_run ended t ts h.0,
  if-satisfies (λ (u : RunTask). u.recursion_depth ≤ limit) (t.run_id == ended) _ _ (λ e. h.1)
      (λ e. h.1),
  end_run-IsLineage limit ended ts h.2,
)

abbrev lineage_in : Option RunTask → Option (String × ℕ)
lineage_in none = none
lineage_in (some t) = some (t.root_run_id, t.recursion_depth)

lineage_of-find_task :
    (run_id : String) (ts : List RunTask) → lineage_of run_id ts ≡ lineage_in (find_task run_id ts)
unfolding find_task lineage_of
lineage_of-find_task run_id [] = refl
lineage_of-find_task run_id (t ∷ ts) = elim (Bool-cases (t.run_id == run_id)) [
  | inl e ↦ rw e refl
  | inr e ↦ rw e (lineage_of-find_task run_id ts)
]

abbrev IsNamed : String → Option RunTask → Type 0
IsNamed run_id none = Unit
IsNamed run_id (some t) = (t.run_id == run_id) ≡ true

find_task-IsNamed : (run_id : String) (ts : List RunTask) → IsNamed run_id (find_task run_id ts)
unfolding find_task
find_task-IsNamed run_id [] = tt
find_task-IsNamed run_id (t ∷ ts) =
    if-satisfies (IsNamed run_id) (t.run_id == run_id) _ _ (λ e. e)
      (λ e. find_task-IsNamed run_id ts)

found-lineage :
    (run_id : String) (ts : List RunTask) (t : RunTask)
    → find_task run_id ts ≡ some t
    → lineage_of t.run_id ts ≡ some (t.root_run_id, t.recursion_depth)
found-lineage run_id ts t h =
    ap (λ i. lineage_of i ts)
      ((eq_iff t.run_id run_id).0 (subst (IsNamed run_id) h (find_task-IsNamed run_id ts)))
    ∙ lineage_of-find_task run_id ts
    ∙ ap lineage_in h

module _ (schedule : Schedule) (limit : ℕ) where
  delegated-IsLineage :
      (parent : RunTask) (params : Json) (ts : List RunTask)
      → lineage_of parent.run_id ts ≡ some (parent.root_run_id, parent.recursion_depth)
      → parent.recursion_depth < limit
      → IsLineage limit ts
      → (r : Result (Unit {0})) → IsLineage limit (delegated schedule parent params ts r).1
  unfolding lineage_for_recursive_delegate
  delegated-IsLineage parent params ts l d h (err e) = h
  delegated-IsLineage parent params ts l d h (ok u) = of (schedule parent params ts)
    where
      of : (x : Result (RunTask × Json)) → IsLineage limit (scheduled parent ts x).1
      of (err e) = h
      of (ok started) =
          (as_child parent.run_id parent.recursion_depth refl l refl, omega (arith, d), h)

  delegate_run-IsLineage :
      (caller : RecursiveCallerContext) (params : Json) (ts : List RunTask)
      → caller.recursion_depth < limit
      → IsLineage limit ts
      → IsLineage limit (delegate_run schedule caller params ts).1
  unfolding delegate_run active_recursive_caller
  delegate_run-IsLineage caller params ts d h = of (find_task caller.parent_run_id ts) refl
    where
      of :
          (o : Option RunTask)
          → find_task caller.parent_run_id ts ≡ o
          → IsLineage limit (delegate_from schedule (checked_caller o caller) caller params ts).1
      of none e = h
      of (some parent) e =
          if-satisfies
            (λ (r : Result RunTask). IsLineage limit (delegate_from schedule r caller params ts).1)
            (is_caller parent caller) _ _
            (λ g.
              delegated-IsLineage parent params ts (found-lineage caller.parent_run_id ts parent e)
                (ground (arith, g, d)) h (authorize parent caller params))
            (λ g. h)

module _ (p : Platform) (handle : Handle) (schedule : Schedule)
    (rejoined : RecursiveCallerContext → Json → List RunTask → Result Json) where
  control_step-IsLineage :
      (e : ControlEvent) (ts : List RunTask)
      → IsLineage handle.max_depth ts
      → IsLineage handle.max_depth (control_step p handle schedule rejoined e ts)
  unfolding control_step
  control_step-IsLineage (run_ended run_id) ts h = end_run-IsLineage handle.max_depth run_id ts h
  control_step-IsLineage (line_received line) ts h =
      handle_rpc_line-keeps (IsLineage handle.max_depth) p handle _ "line" "envelope" line ts
        (λ caller params d. delegate_run-IsLineage schedule handle.max_depth caller params ts d h)
        (λ caller params. h) h

  -- The runs that delegations make are trees of bounded depth. From runs that are placed so, any
  -- sequence of lines on the socket, well formed or not and with any claims on their caller, and of
  -- runs that end leaves every run either a root of its own at depth 0 or the child of an earlier
  -- run, with its root and one below it, and none deeper than the limit of the server.
  pub control_steps-IsLineage :
      (es : List ControlEvent) (ts : List RunTask)
      → IsLineage handle.max_depth ts
      → IsLineage handle.max_depth (control_steps p handle schedule rejoined es ts)
  control_steps-IsLineage [] ts h = h
  control_steps-IsLineage (e ∷ es) ts h =
      control_steps-IsLineage es (control_step p handle schedule rejoined e ts)
        (control_step-IsLineage e ts h)
