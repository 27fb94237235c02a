-- ===== src/Ncm/Lifecycle/Laws.antt =====
-- No candidate is approved by its author, for app/api/routes_ncm.py and app/services/ncm_deploy.py.
use mathlib.Core.Path.{subst}
use net_ops_guard.Prelude.{ℕ, String, some, ◌≡◌, ◌≢◌, sym, ap, All, Option-cases, inl, inr}
use net_ops_guard.Prelude.Result.{ok}
use net_ops_guard.Ncm.Candidates.{Candidate, Text, find_candidate, put}
use net_ops_guard.Ncm.Candidates.Laws.{
  IsApproved, IsReviewed, was_approved, All-put, find_candidate-All, create_candidate-IsReviewed,
  submit_candidate-IsReviewed, review_candidate-IsReviewed,
}
use net_ops_guard.Ncm.Calls.{World, DeployOutcome}
use net_ops_guard.Ncm.Calls.Laws.{commands_sent}
use net_ops_guard.Ncm.Deployment.{deploy_candidate}
use net_ops_guard.Ncm.Deployment.Laws.{
  IsProgress, deploy_candidate-IsProgress, deploy_candidate-IsGuarded,
}
use net_ops_guard.Ncm.Lifecycle.{
  State, deploy_request, Step, created, submitted, reviewed, deployed, elsewhere, Reach, start,
  next,
}

progress-IsReviewed : (c c' : Candidate) → IsProgress c c' → IsReviewed c → IsReviewed c'
progress-IsReviewed c c' (inl same) h = subst IsReviewed (sym same) h
progress-IsReviewed c c' (inr (s, may, step, same)) h =
    subst IsReviewed (sym same) (λ _. h (ap was_approved may))

module _ (text : Text) (w : World) where
  deploy_request-IsReviewed :
      (id : ℕ) (admin : String) (s s' : State) (outcome : DeployOutcome)
      → All IsReviewed s.candidates
      → deploy_request text w id admin s ≡ ok (outcome, s')
      → All IsReviewed s'.candidates
  unfolding deploy_request
  deploy_request-IsReviewed id admin s s' outcome h e =
      elim (Option-cases (find_candidate id s.candidates)) [
        | inl none' ↦ absurd (cc (rw (deploy_request, none') at e))
        | inr (c, some') ↦
            let run = deploy_candidate text w c admin s.db in
            let after : State = record {
              candidates = put run.candidate s.candidates;
              db = run.db;
            } in
            let e1 : ok (run.outcome, after) ≡ ok (outcome, s') = rw (deploy_request, some') at e in
            let same : after ≡ s' = cc e1 in
            let mine = find_candidate-All IsReviewed id s.candidates c h some' in
            let progress = deploy_candidate-IsProgress text w c admin s.db in
            subst (λ x. All IsReviewed x.candidates) same
              (All-put IsReviewed run.candidate s.candidates
                (progress-IsReviewed c run.candidate progress mine) h)
      ]

  step-IsReviewed :
      (s s' : State) → Step text w s s' → All IsReviewed s.candidates → All IsReviewed s'.candidates
  step-IsReviewed s _ (created new_id admin payload _ cs e) h =
      create_candidate-IsReviewed text s.db.devices new_id admin payload s.candidates cs h e
  step-IsReviewed s _ (submitted id _ cs e) h =
      submit_candidate-IsReviewed text id s.candidates cs h e
  step-IsReviewed s _ (reviewed id decision note admin now _ cs e) h =
      review_candidate-IsReviewed text id decision note admin now s.candidates cs h e
  step-IsReviewed s s' (deployed id admin _ _ outcome e) h =
      deploy_request-IsReviewed id admin s s' outcome h e
  step-IsReviewed s _ (elsewhere _ db) h = h

  -- In every reachable state, a candidate that is approved, deployed or failed has been approved by
  -- someone who is not its author.
  pub reach-IsReviewed : (s : State) → Reach text w s → All IsReviewed s.candidates
  reach-IsReviewed s (start t none') = subst (All IsReviewed) (sym none') tt
  reach-IsReviewed s (next t s' before step) = step-IsReviewed t s' step (reach-IsReviewed t before)

  -- In every reachable state, a deployment that sends a command sends those of a candidate that was
  -- approved by someone who is not its author.
  pub deploy_candidate-four_eyes :
      (s : State) (id : ℕ) (c : Candidate) (admin : String)
      → Reach text w s
      → find_candidate id s.candidates ≡ some c
      → commands_sent (deploy_candidate text w c admin s.db).db.events ≢ commands_sent s.db.events
      → IsApproved c
  deploy_candidate-four_eyes s id c admin reach found sends =
      elim (deploy_candidate-IsGuarded text w c admin s.db) [
        | inl silent ↦ absurd (sends silent)
        | inr (may, fine, backed) ↦
            find_candidate-All IsReviewed id s.candidates c (reach-IsReviewed s reach) found
              (ap was_approved may)
      ]
