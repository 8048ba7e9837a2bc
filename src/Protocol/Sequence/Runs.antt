-- ===== src/Protocol/Sequence/Runs.antt =====
-- What a sequence guard lets through over a whole session.
use remotetab.Prelude.{ℕ, zero, suc, ◌+◌, ◌≤◌, ◌≡◌, refl, ◌↔◌, List, [], ◌∷◌, arith, length}
use remotetab.Protocol.Errors.{replay_rejected}
use remotetab.Protocol.Sequence.{SequenceGuard, Verdict, accepted, refused, check, max_safe_integer}

abbrev keep : Verdict → ℕ → List ℕ → List ℕ
keep accepted seq rest = seq ∷ rest
keep (refused c) seq rest = rest

-- The sequence numbers that the guard accepts, in order of arrival.
pub accepts : SequenceGuard → List ℕ → List ℕ
accepts g [] = []
accepts g (seq ∷ seqs) = keep (check g seq).1 seq (accepts (check g seq).0 seqs)

-- n, n + 1, … : `k` numbers.
pub count_up : ℕ → ℕ → List ℕ
count_up n zero = []
count_up n (suc k) = n ∷ count_up (suc n) k

-- A number passes exactly if it is the successor of the last one that passed and a safe integer.
pub check-accepted_iff :
    (g : SequenceGuard) (seq : ℕ)
    → ((check g seq).1 ≡ accepted) ↔ ((seq ≡ g.last_seq + 1) × (seq ≤ max_safe_integer))
unfolding check
check-accepted_iff g seq = (λ e. ground arith, λ e. ground arith)

-- A safe positive number that does not pass is called a replay exactly if it is not above the last.
pub check-replay_iff :
    (g : SequenceGuard) (seq : ℕ)
    → 1 ≤ seq
    → seq ≤ max_safe_integer
    → ((check g seq).1 ≡ refused replay_rejected) ↔ (seq ≤ g.last_seq)
unfolding check
check-replay_iff g seq h k = (λ e. ground arith, λ e. ground arith)

-- Whatever arrives, the accepted numbers are the successors of the last one, with no gap, repeat
-- or change of order.
pub accepts-eq-count_up :
    (g : SequenceGuard) (seqs : List ℕ)
    → accepts g seqs ≡ count_up (suc g.last_seq) (length (accepts g seqs))
unfolding accepts count_up check
accepts-eq-count_up g [] = refl
accepts-eq-count_up g (seq ∷ seqs) =
    ground (arith, accepts-eq-count_up g seqs, accepts-eq-count_up (record { last_seq = seq }) seqs)

-- Numbers that are sent in order all pass.
pub accepts-count_up :
    (g : SequenceGuard) (k : ℕ)
    → g.last_seq + k ≤ max_safe_integer
    → accepts g (count_up (suc g.last_seq) k) ≡ count_up (suc g.last_seq) k
unfolding accepts count_up check
accepts-count_up g zero h = refl
accepts-count_up g (suc k) h =
    ground (arith, accepts-count_up (record { last_seq = suc g.last_seq }) k)
