-- ===== src/Ncm/Lifecycle.antt =====
-- The table of candidates over time: the operations of app/api/routes_ncm.py that write it, with
-- the deployment of app/services/ncm_deploy.py, as steps of a state.
pub mod Laws
use net_ops_guard.Prelude.{ℕ, String, Option, none, some, List, [], ◌≡◌}
use net_ops_guard.Prelude.Result.{Result, ok, err}
use net_ops_guard.Inventory.{NetworkDevice}
use net_ops_guard.Ncm.Candidates.{
  Candidate, CandidateError, candidate_not_found, NewCandidate, Text, find_candidate, put,
  create_candidate, submit_candidate, review_candidate,
}
use net_ops_guard.Ncm.Calls.{World, Db, DeployOutcome}
use net_ops_guard.Ncm.Deployment.{deploy_candidate}

pub record State : Type 0 where
  pub candidates : List Candidate
  pub db : Db

module _ (text : Text) (w : World) where
  -- `deploy_candidate_endpoint`
  unfoldable pub deploy_request : ℕ → String → State → Result CandidateError (DeployOutcome × State)
  unfolding find_candidate put deploy_candidate
  deploy_request id admin s = elim (find_candidate id s.candidates) [
    | none ↦ err candidate_not_found
    | some c ↦
        let run = deploy_candidate text w c admin s.db in
        ok (run.outcome, record { candidates = put run.candidate s.candidates; db = run.db })
  ]

  -- One request. `elsewhere` is any that does not write the table of candidates.
  pub data Step : State → State → Type 0 where
    created :
        (new_id : ℕ) (admin : String) (payload : NewCandidate) (s : State) (cs : List Candidate)
        → create_candidate text s.db.devices new_id admin payload s.candidates ≡ ok cs
        → Step s (record s { candidates = cs })
    submitted :
        (id : ℕ) (s : State) (cs : List Candidate)
        → submit_candidate text id s.candidates ≡ ok cs
        → Step s (record s { candidates = cs })
    reviewed :
        (id : ℕ) (decision : String) (note : Option String) (admin : String) (now : ℕ) (s : State)
        (cs : List Candidate)
        → review_candidate text id decision note admin now s.candidates ≡ ok cs
        → Step s (record s { candidates = cs })
    deployed :
        (id : ℕ) (admin : String) (s s' : State) (outcome : DeployOutcome)
        → deploy_request id admin s ≡ ok (outcome, s')
        → Step s s'
    elsewhere : (s : State) (db : Db) → Step s (record s { db = db })

  -- What requests make of a table without candidates.
  pub data Reach : State → Type 0 where
    start : (s : State) → s.candidates ≡ [] → Reach s
    next : (s s' : State) → Reach s → Step s s' → Reach s'
