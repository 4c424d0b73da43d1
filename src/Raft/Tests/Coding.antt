-- ===== src/Raft/Tests/Coding.antt =====
-- A lossless codec of the persistent status over commands that are numbers, for the tests.
use mit6_824_labs.Prelude.{
  ℕ, zero, suc, ◌≡◌, refl, ap, ◌∙◌, sym, List, [], ◌∷◌, Option, none, some, arith, some_inj,
}
use mit6_824_labs.Prelude.Int.{ℤ, pos, negsuc}
use mit6_824_labs.Raft.Types.{Bytes, LogEntry, PersistentStatus}
use mit6_824_labs.Raft.Persist.{Codec, IsLossless}

abbrev code_entry : LogEntry ℕ → Bytes → Bytes
code_entry e rest = elim e.cmd [ none ↦ e.term ∷ 0 ∷ 0 ∷ rest | some c ↦ e.term ∷ 1 ∷ c ∷ rest ]

abbrev code_logs : List (LogEntry ℕ) → Bytes
code_logs [] = []
code_logs (e ∷ logs) = code_entry e (code_logs logs)

abbrev read_cmd : ℕ → ℕ → Option ℕ
read_cmd zero c = none
read_cmd (suc n) c = some c

abbrev read_logs : Bytes → List (LogEntry ℕ)
read_logs (t ∷ n ∷ c ∷ rest) = record { term = t; cmd = read_cmd n c } ∷ read_logs rest
read_logs bytes = []

abbrev code_vote : ℤ → Bytes → Bytes
code_vote (pos n) rest = 0 ∷ n ∷ rest
code_vote (negsuc n) rest = 1 ∷ n ∷ rest

abbrev read_vote : ℕ → ℕ → ℤ
read_vote zero n = pos n
read_vote (suc k) n = negsuc n

abbrev code : PersistentStatus ℕ → Bytes
code st =
    st.current_term
    ∷ st.last_included_index
    ∷ st.last_included_term
    ∷ code_vote st.voted_for (code_logs st.logs)

abbrev read : Bytes → Option (PersistentStatus ℕ)
read (t ∷ i ∷ u ∷ k ∷ n ∷ rest) = some (record {
  logs = read_logs rest;
  current_term = t;
  voted_for = read_vote k n;
  last_included_index = i;
  last_included_term = u;
})
read bytes = none

abbrev pub coding : Codec (PersistentStatus ℕ)
coding = record { encode = λ st. some (code st); decode = read }

read_code_entry :
    (t : ℕ) (cmd : Option ℕ) (rest : Bytes)
    → read_logs (code_entry (record { term = t; cmd = cmd }) rest)
      ≡ record { term = t; cmd = cmd } ∷ read_logs rest
read_code_entry t none rest = refl
read_code_entry t (some c) rest = refl

read_code_logs : (logs : List (LogEntry ℕ)) → read_logs (code_logs logs) ≡ logs
read_code_logs [] = refl
read_code_logs (e ∷ logs) =
    read_code_entry e.term e.cmd (code_logs logs) ∙ ap (λ l. e ∷ l) (read_code_logs logs)

read-code : (st : PersistentStatus ℕ) → read (code st) ≡ some st
read-code st = go st.voted_for
  where
    go : (v : ℤ) → read (code (record st { voted_for = v })) ≡ some (record st { voted_for = v })
    go (pos n) = ap (λ l. some (record st { voted_for = pos n; logs = l })) (read_code_logs st.logs)
    go (negsuc n) =
        ap (λ l. some (record st { voted_for = negsuc n; logs = l })) (read_code_logs st.logs)

pub coding-IsLossless : IsLossless coding
coding-IsLossless = record {
  encodes = λ a e. ground arith;
  lossless = λ a b e. ap read (sym (some_inj e)) ∙ read-code a;
  nonempty = λ a e. ground arith;
}
