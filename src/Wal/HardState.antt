-- ===== src/Wal/HardState.antt =====
-- What `LoadHardState` gives back of a state that `SaveHardState` wrote.
use my_etcd.Base.{
  ℕ, ◌==◌, ◌≡◌, ◌^◌, ◌<◌, refl, ap, ◌∙◌, [], append-nil, sym, none, some, if◌then◌else◌,
  get_or_else,
}
use my_etcd.Types.{RaftHardState, no_node_id}
use my_etcd.Codec.{le_bytes, read_le}
use my_etcd.Codec.Words.{FitsBytes-u64, read_le-le_bytes}
use my_etcd.Wal.RoundTrip.{then_some}
use my_etcd.Wal.{Wal, save_hard_state, load_hard_state, read_hard_state}

-- A vote for node 0 is no vote.
abbrev pub as_saved : RaftHardState → RaftHardState
as_saved st =
    let voted = get_or_else st.voted_for no_node_id in
    record st { voted_for = if voted == no_node_id then none else some voted }

read_last : (v : ℕ) → v < 2 ^ 64 → read_le 8 (le_bytes 8 v) ≡ some (v, [])
read_last v h =
    ap (read_le 8) (sym (append-nil (le_bytes 8 v))) ∙ read_le-le_bytes 8 v [] (FitsBytes-u64 v h)

-- A saved hard state is loaded as it was, a vote for node 0 as none, if its words fit 64 bits.
pub load_hard_state-save_hard_state :
    (st : RaftHardState) (w : Wal)
    → st.current_term < 2 ^ 64
    → get_or_else st.voted_for no_node_id < 2 ^ 64
    → st.commit_index < 2 ^ 64
    → load_hard_state (save_hard_state st w) ≡ some (as_saved st)
unfolding load_hard_state save_hard_state read_hard_state
load_hard_state-save_hard_state st w h k l =
    then_some _ (read_le-le_bytes 8 st.current_term _ (FitsBytes-u64 st.current_term h)) (
      then_some _
        (read_le-le_bytes 8 (get_or_else st.voted_for no_node_id) _
          (FitsBytes-u64 (get_or_else st.voted_for no_node_id) k))
        (then_some _ (read_last st.commit_index l) refl))
