-- ===== src/Runner/Switch/Caught.antt =====
-- What `WaitCandidateCatchUp` of internal/controller/switchover/actions.go has seen when it returns no
-- error.
use mha_go.Base.{Text, codes, ◌++◌, some, ok, ◌≡◌}
use mha_go.Domain.Spec.{ClusterSpec, NodeSpec}
use mha_go.Domain.Switchover.{SwitchoverPlan}
use mha_go.Domain.Inspection.{node_spec_by_id, or_error-some}
use mha_go.Runner.{open_db, stable_gtid, wait_executed, SqlLog, Servers, give, ask}
use mha_go.Runner.Grows.{
  Did, Did-Returns, returns_of, >>=-Returns, from-Returns, ask-Did, ask-Grows, give-Grows,
  from-Grows,
}
use mha_go.Runner.Switch.{wait_candidate_catch_up, wait_timeout, connect_text, spec_of}

module _ (servers : Servers) (spec : ClusterSpec) (plan : SwitchoverPlan) where
  abbrev no_original : Text → Text
  no_original =
      connect_text (codes "original primary") plan.original_primary.id (codes " for GTID fetch")

  abbrev no_candidate : Text → Text
  no_candidate = connect_text (codes "candidate") plan.candidate.id (codes " for catch-up wait")

  abbrev unstable : Text → Text
  unstable e = codes "wait for stable gtid_executed from original primary: " ++ e

  abbrev same : Text → Text
  same e = e

  -- A GTID set was read from the original primary, and the wait for it on the candidate succeeded.
  pub record IsCaughtUp (t : SqlLog) : Type 0 where
    pub original : NodeSpec
    pub candidate : NodeSpec
    pub gtid : Text
    pub answer : Text
    pub original_found : node_spec_by_id spec plan.original_primary.id ≡ some original
    pub candidate_found : node_spec_by_id spec plan.candidate.id ≡ some candidate
    pub read : Did t (stable_gtid original (wait_timeout spec)) gtid
    pub applied : Did t (wait_executed candidate gtid (wait_timeout spec)) answer

  -- When the wait for the candidate returns no error, a GTID set was read from the original
  -- primary as stable, and the candidate was waited for to apply this set, without an error.
  pub wait_candidate_catch_up-IsCaughtUp :
      (t : SqlLog) {u : Unit}
      → (wait_candidate_catch_up servers spec plan t).0 ≡ ok u
      → IsCaughtUp (wait_candidate_catch_up servers spec plan t).1
  unfolding wait_candidate_catch_up
  wait_candidate_catch_up-IsCaughtUp t h =
      let (original, t1, e1, h1) =
        >>=-Returns (spec_of servers spec plan plan.original_primary.id (codes "original primary"))
          _ (returns_of (wait_candidate_catch_up servers spec plan t) h) in
      let (db, t2, e2, h2) = >>=-Returns (ask servers no_original (open_db original)) _ h1 in
      let (gtid, t3, e3, h3) =
        >>=-Returns (ask servers unstable (stable_gtid original (wait_timeout spec))) _ h2 in
      let (candidate, t4, e4, h4) =
        >>=-Returns (spec_of servers spec plan plan.candidate.id (codes "candidate")) _ h3 in
      let (db', t5, e5, h5) = >>=-Returns (ask servers no_candidate (open_db candidate)) _ h4 in
      let (answer, t6, e6, h6) =
        >>=-Returns (ask servers same (wait_executed candidate gtid (wait_timeout spec))) _ h5 in
      let read = ask-Did servers unstable (stable_gtid original (wait_timeout spec)) t2 e3 in
      let applied = ask-Did servers same (wait_executed candidate gtid (wait_timeout spec)) t5 e6 in
      let later =
        Did-Returns (ask servers same (wait_executed candidate gtid (wait_timeout spec)))
          (ask-Grows servers same _) e6
          (Did-Returns (ask servers no_candidate (open_db candidate))
            (ask-Grows servers no_candidate _) e5
            (Did-Returns (spec_of servers spec plan plan.candidate.id (codes "candidate"))
              (from-Grows _) e4 read)) in
      record {
        original = original;
        candidate = candidate;
        gtid = gtid;
        answer = answer;
        original_found = or_error-some _ _ (from-Returns _ e1);
        candidate_found = or_error-some _ _ (from-Returns _ e4);
        read = Did-Returns (give tt) (give-Grows tt) h6 later;
        applied = Did-Returns (give tt) (give-Grows tt) h6 applied;
      }
