-- ===== src/Tests/LogTests.antt =====
-- The theorems of the log at a log of three entries.
use my_etcd.Base.{zero, suc, ◌+◌, ◌≤◌, refl, arith}
use my_etcd.Raft.Log.{empty_log, append, term_at, last_index}
use my_etcd.Raft.Log.Contiguous.{IsWf, here, next, appends, LogReach-IsWf, empty_log-IsWf}
use my_etcd.Raft.Replicate.{find_conflict_term_index}
use my_etcd.Raft.Replicate.Bisect.{find_conflict_term_index_lem, TermsRise}
use my_etcd.Tests.States.{entry_of, log3}

LogReach-IsWf_example : IsWf (append empty_log (entry_of 1 1)).0
LogReach-IsWf_example =
    LogReach-IsWf (next here (appends (entry_of 1 1) refl (omega arith))) empty_log-IsWf

-- The terms 1, 1 and 2 do not fall.
log3-TermsRise : TermsRise log3 1 (last_index log3 + 1)
unfolding last_index term_at
log3-TermsRise zero j from upto below = absurd (omega arith)
log3-TermsRise (suc zero) (suc zero) from upto below = ground arith
log3-TermsRise (suc zero) (suc (suc zero)) from upto below = ground arith
log3-TermsRise (suc zero) (suc (suc (suc zero))) from upto below = ground arith
log3-TermsRise (suc (suc zero)) (suc (suc zero)) from upto below = ground arith
log3-TermsRise (suc (suc zero)) (suc (suc (suc zero))) from upto below = ground arith
log3-TermsRise (suc (suc (suc zero))) (suc (suc (suc zero))) from upto below = ground arith
log3-TermsRise i j from upto below = absurd (ground arith)

find_conflict_term_index_lem_example : 1 ≤ find_conflict_term_index 1 2 log3
unfolding term_at last_index
find_conflict_term_index_lem_example =
    ((find_conflict_term_index_lem log3 1 2 log3-TermsRise).0 2 (omega arith) (omega arith) refl).0
