-- ===== src/Lifecycle/Approvals.antt =====
-- governance/lifecycle.py: the votes of the manager, and what its methods keep.
use computational_governance.Prelude.{
  ℕ, String, ℤ, ◌≡◌, refl, ap, Bool, true, false, Option, none, some, List, [], ◌∷◌, ◌++◌, arith,
  ◌==◌, any, distinct, contains,
}
use mathlib.Core.List.{map}
use computational_governance.Errors.{Exception, Try, ok, raise}
use computational_governance.Json.{Fields}
use computational_governance.Approval.Lifecycle.{distinct-append}
use computational_governance.Versioning.{PolicyBundle}
use computational_governance.Lifecycle.{
  PolicyLifecycleState, PolicyApproval, LifecycleEntry, PolicyLifecycleManager,
}
use computational_governance.Lifecycle.Tables.{Key, find, put, find-put}
use computational_governance.Lifecycle.Keyed.{EntriesKeyed, UniqueKeys, put-EntriesKeyed}
use computational_governance.Lifecycle.Monad.{M, ◌>>=◌, lift, gets, fail_if, both_keep}
use computational_governance.Lifecycle.Authoring.{save, entry, append_event, latest_event}
use computational_governance.Lifecycle.Rollout.{
  approve, cast, voted, vote_allowed, votes_or, bundle_of, baseline_or_active,
}

abbrev pub approver_ids : List PolicyApproval → List String
approver_ids votes = map (λ (v : PolicyApproval). v.approver_id) votes

-- The votes under each key are of distinct approvers.
abbrev pub VotesDistinct : PolicyLifecycleManager → Type 0
VotesDistinct self =
    (key : Key) → distinct (approver_ids (votes_or (find key self.approvals))) ≡ true

-- What every method keeps: that, entries under their own names, and one active version in an
-- environment.
abbrev pub IsKept : PolicyLifecycleManager → Type 0
IsKept self = VotesDistinct self × EntriesKeyed self.entries × UniqueKeys self.active

abbrev pub Keeps : {A : Type 0} → M A → Type 0
Keeps m = (self : PolicyLifecycleManager) → IsKept self → IsKept (m self).0

pub both-Keeps :
    {A B : Type 0} (m : M A) (f : A → M B) → Keeps m → ((a : A) → Keeps (f a)) → Keeps (m >>= f)
both-Keeps m f first rest = both_keep IsKept m f first rest

pub entry-Keeps : (p v : String) → Keeps (entry p v)
unfolding entry
entry-Keeps p v =
    both-Keeps _ _ (λ s h. h)
      (λ a. both-Keeps _ _ (λ s h. h) (λ b. both-Keeps _ _ (λ s h. h) (λ c s h. h)))

pub fail_if-Keeps : (b : Bool) (e : Exception) → Keeps (fail_if b e)
fail_if-Keeps true e self h = h
fail_if-Keeps false e self h = h

pub append_event-Keeps :
    (clock : ℤ) (e : LifecycleEntry) (event : String) (from_state to_state : PolicyLifecycleState)
    (reason : String) (environment actor_id : Option String) (attributes : Fields)
    → Keeps (append_event clock e event from_state to_state reason environment actor_id attributes)
unfolding append_event
append_event-Keeps clock e event from_state to_state reason environment actor_id attributes =
    both-Keeps _ _ (λ s h. h)
      (λ kept. both-Keeps _ _ (λ s h. h) (λ n. both-Keeps _ _ (λ s h. h) (λ u s h. h)))

pub latest_event-Keeps : Keeps latest_event
unfolding latest_event
latest_event-Keeps = both-Keeps _ _ (λ s h. h) (λ found s h. h)

bundle_of-Keeps : (policy_id : String) (o : Option String) → Keeps (bundle_of policy_id o)
bundle_of-Keeps policy_id none = λ s h. h
bundle_of-Keeps policy_id (some version) =
    both-Keeps _ _ (entry-Keeps policy_id version) (λ e s h. h)

pub baseline_or_active-Keeps :
    (baseline : Option PolicyBundle) (policy_id environment : String)
    → Keeps (baseline_or_active baseline policy_id environment)
baseline_or_active-Keeps (some bundle) policy_id environment = λ s h. h
baseline_or_active-Keeps none policy_id environment =
    both-Keeps _ _ (λ s h. h) (λ found. bundle_of-Keeps policy_id found)

ids-append :
    (votes : List PolicyApproval) (vote : PolicyApproval)
    → approver_ids (votes ++ vote ∷ []) ≡ approver_ids votes ++ vote.approver_id ∷ []
ids-append [] vote = refl
ids-append (v ∷ votes) vote = ap (λ xs. v.approver_id ∷ xs) (ids-append votes vote)

ids-contains :
    (votes : List PolicyApproval) (a : String)
    → contains (approver_ids votes) a ≡ any (λ v. v.approver_id == a) votes
ids-contains [] a = refl
ids-contains (v ∷ votes) a = ground (arith, ids-contains votes a)

-- A vote that passes the checks leaves the approvers distinct.
allowed_distinct :
    (self : PolicyLifecycleManager) (role environment : String) (vote : PolicyApproval)
    (votes : List PolicyApproval)
    → distinct (approver_ids votes) ≡ true
    → vote_allowed self vote.approver_id role environment votes ≡ ok tt
    → distinct (approver_ids (votes ++ vote ∷ [])) ≡ true
unfolding vote_allowed
allowed_distinct self role environment vote votes h k = rw (ids-append votes vote) (
    distinct-append (approver_ids votes) vote.approver_id h
      (ground (arith, ids-contains votes vote.approver_id)))

-- The votes under one key are replaced by distinct ones.
put_keeps :
    (key : Key) (votes : List PolicyApproval) (self : PolicyLifecycleManager)
    → distinct (approver_ids votes) ≡ true
    → IsKept self
    → IsKept (record self { approvals = put key votes self.approvals })
put_keeps key votes self d (h, keyed, unique) =
    ((λ j. ground (arith, find-put j key votes self.approvals, h j)), keyed, unique)

pub save-Keeps : (e : LifecycleEntry) → Keeps (save e)
unfolding save
save-Keeps e self (votes, keyed, unique) = (votes, put-EntriesKeyed self.entries e keyed, unique)

pub lift-Keeps :
    {A B : Type 0} (t : Try A) (f : A → M B)
    → ((a : A) → t ≡ ok a → Keeps (f a))
    → Keeps (lift t >>= f)
unfolding ◌>>=◌
lift-Keeps (ok a) f rest = rest a refl
lift-Keeps (raise e) f rest = λ s h. h

pub gets-Keeps :
    {A B : Type 0} (g : PolicyLifecycleManager → A) (f : A → M B)
    → ((self : PolicyLifecycleManager) → IsKept self → IsKept (f (g self) self).0)
    → Keeps (gets g >>= f)
unfolding ◌>>=◌
gets-Keeps g f rest = rest

module _ (clock : ℤ) where
  voted-Keeps :
      (e : LifecycleEntry) (key : Key) (environment : String) (threshold : ℕ)
      (votes : List PolicyApproval) (vote : PolicyApproval)
      → distinct (approver_ids (votes ++ vote ∷ [])) ≡ true
      → Keeps (voted clock e key environment threshold votes vote)
  voted-Keeps e key environment threshold votes vote d =
      both-Keeps _ _ (λ s h. put_keeps key (votes ++ vote ∷ []) s d h)
        (λ _.
          both-Keeps _ _ (save-Keeps _)
            (λ _. both-Keeps _ _ (append_event-Keeps clock _ _ _ _ _ _ _ _) (λ event s h. h)))

  cast-Keeps :
      (e : LifecycleEntry) (key : Key) (environment approver role reason : String)
      (votes : List PolicyApproval)
      → distinct (approver_ids votes) ≡ true
      → Keeps (cast clock e key environment approver role reason votes)
  unfolding cast
  cast-Keeps e key environment approver role reason votes d =
      both-Keeps _ _ (λ s h. put_keeps key votes s d h)
        (λ _. gets-Keeps _ _ (λ s.
          lift-Keeps _ _
            (λ u allowed.
              both-Keeps _ _ (λ s h. h)
                (λ kept_reason.
                  both-Keeps _ _ (λ s h. h)
                    (λ threshold.
                      voted-Keeps e key environment threshold votes _
                        (allowed_distinct s role environment _ votes d allowed))))
            s))

  pub approve-Keeps :
      (policy_id version approver_id role environment reason : String)
      → Keeps (approve clock policy_id version approver_id role environment reason)
  unfolding approve
  approve-Keeps policy_id version approver_id role environment reason =
      both-Keeps _ _ (entry-Keeps policy_id version) (λ e. both-Keeps _ _ (fail_if-Keeps _ _) (λ _.
        both-Keeps _ _ (fail_if-Keeps _ _) (λ _.
          both-Keeps _ _ (λ s h. h)
            (λ approver.
              both-Keeps _ _ (λ s h. h)
                (λ kept_role.
                  both-Keeps _ _ (λ s h. h)
                    (λ env.
                      both-Keeps _ _ (λ s h. h)
                        (λ roles. both-Keeps _ _ (fail_if-Keeps _ _) (λ _. gets-Keeps _ _ (λ self h.
                          cast-Keeps e (policy_id ∷ version ∷ env ∷ []) env approver kept_role
                            reason _ (h.0 (policy_id ∷ version ∷ env ∷ [])) self h)))))))))
