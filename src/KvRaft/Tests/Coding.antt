-- ===== src/KvRaft/Tests/Coding.antt =====
-- Lossless codecs of the service's snapshots and of Raft's persistent status over its commands, for
-- the tests: numbers stand for themselves, and texts and lists follow their length.
use Prim.Native.Nat.{Ordering, compare}
use Prim.Native.Char.{Char, char, code, IsLt, IsScalar}
use Prim.Native.String.{String}
use mit6_824_labs.Prelude.{
  ℕ, zero, suc, ◌≡◌, refl, ap, sym, ◌∙◌, List, [], ◌∷◌, Option, none, some, length, arith, ◌>>=◌,
  some_inj,
}
use mit6_824_labs.Prelude.Int.{ℤ, pos, negsuc}
use mit6_824_labs.Raft.Types.{Bytes, LogEntry, PersistentStatus}
use mit6_824_labs.Raft.Persist.{Codec, IsLossless}
use mit6_824_labs.KvRaft.Types.{Op, SnapshotStatus}

-- The three comparisons of IsScalar, decided.
abbrev pub TwoLt : Ordering → Ordering → Type 0
TwoLt Ordering.lt o = IsLt o
TwoLt Ordering.eq o = ⊥
TwoLt Ordering.gt o = ⊥

abbrev pub InRange : Ordering → Ordering → Ordering → Type 0
InRange Ordering.lt o p = Unit
InRange Ordering.eq o p = TwoLt o p
InRange Ordering.gt o p = TwoLt o p

pub find_lt : (o : Ordering) → Option (IsLt o)
find_lt Ordering.lt = some tt
find_lt Ordering.eq = none
find_lt Ordering.gt = none

pub find_lt-back : (o : Ordering) (x : IsLt o) → find_lt o ≡ some x
unfolding find_lt
find_lt-back Ordering.lt x = refl
find_lt-back Ordering.eq x = elim x [ ]
find_lt-back Ordering.gt x = elim x [ ]

pub find_two : (o p : Ordering) → Option (TwoLt o p)
find_two Ordering.lt p = find_lt p
find_two Ordering.eq p = none
find_two Ordering.gt p = none

pub find_two-back : (o p : Ordering) (x : TwoLt o p) → find_two o p ≡ some x
unfolding find_two
find_two-back Ordering.lt p x = find_lt-back p x
find_two-back Ordering.eq p x = elim x [ ]
find_two-back Ordering.gt p x = elim x [ ]

pub find_in : (o p q : Ordering) → Option (InRange o p q)
find_in Ordering.lt p q = some tt
find_in Ordering.eq p q = find_two p q
find_in Ordering.gt p q = find_two p q

pub find_in-back : (o p q : Ordering) (x : InRange o p q) → find_in o p q ≡ some x
unfolding find_in
find_in-back Ordering.lt p q x = refl
find_in-back Ordering.eq p q x = find_two-back p q x
find_in-back Ordering.gt p q x = find_two-back p q x

pub find_scalar : (n : ℕ) → Option (IsScalar n)
find_scalar n = find_in (compare n 55296) (compare 57343 n) (compare n 1114112)

pub find_scalar-back : (n : ℕ) (x : IsScalar n) → find_scalar n ≡ some x
unfolding find_scalar
find_scalar-back n x = find_in-back (compare n 55296) (compare 57343 n) (compare n 1114112) x

-- Writing in front of a rest, and reading off its front.
pub record Coder (A : Type 0) : Type 0 where
  pub write : A → Bytes → Bytes
  pub read : Bytes → Option (A × Bytes)
  pub back : (a : A) (rest : Bytes) → read (write a rest) ≡ some (a, rest)

abbrev pub read_number : Bytes → Option (ℕ × Bytes)
read_number [] = none
read_number (n ∷ rest) = some (n, rest)

abbrev pub number : Coder ℕ
number = record { write = λ n rest. n ∷ rest; read = read_number; back = λ n rest. refl }

module _ {A B : Type 0} (a : Coder A) (b : Coder B) where
  abbrev pub read_pair : Bytes → Option ((A × B) × Bytes)
  read_pair bytes = do (x, rest) ← a.read bytes; (y, rest') ← b.read rest; some ((x, y), rest')

  pub pair_back :
      (v : A × B) (rest : Bytes) → read_pair (a.write v.0 (b.write v.1 rest)) ≡ some (v, rest)
  pair_back v rest = rw (a.back v.0 (b.write v.1 rest), b.back v.1 rest) refl

  abbrev pub pair : Coder (A × B)
  pair = record {
    write = λ v rest. a.write v.0 (b.write v.1 rest);
    read = read_pair;
    back = pair_back;
  }

module _ {A B : Type 0} (a : Coder A) (to : B → A) (from : A → B)
    (same : (x : B) → from (to x) ≡ x) where
  abbrev pub through : Coder B
  through = record {
    write = λ x rest. a.write (to x) rest;
    read = λ bytes. a.read bytes >>= λ v. some (from v.0, v.1);
    back = λ x rest. rw (a.back (to x) rest, same x) refl;
  }

module _ {A : Type 0} (a : Coder A) where
  abbrev pub write_all : List A → Bytes → Bytes
  write_all [] rest = rest
  write_all (x ∷ xs) rest = a.write x (write_all xs rest)

  abbrev pub read_all : ℕ → Bytes → Option (List A × Bytes)
  read_all zero bytes = some ([], bytes)
  read_all (suc n) bytes = do
    (x, rest) ← a.read bytes
    (xs, rest') ← read_all n rest
    some (x ∷ xs, rest')

  pub read_all-back :
      (xs : List A) (rest : Bytes) → read_all (length xs) (write_all xs rest) ≡ some (xs, rest)
  read_all-back [] rest = refl
  read_all-back (x ∷ xs) rest = rw (a.back x (write_all xs rest), read_all-back xs rest) refl

  abbrev pub read_list : Bytes → Option (List A × Bytes)
  read_list [] = none
  read_list (n ∷ rest) = read_all n rest

  abbrev pub list : Coder (List A)
  list = record {
    write = λ xs rest. length xs ∷ write_all xs rest;
    read = read_list;
    back = λ xs rest. read_all-back xs rest;
  }

pub read_char : Bytes → Option (Char × Bytes)
read_char [] = none
read_char (n ∷ rest) = find_scalar n >>= λ p. some (char n p, rest)

pub read_char-back : (c : Char) (rest : Bytes) → read_char (code c ∷ rest) ≡ some (c, rest)
unfolding read_char
read_char-back (char n p) rest = rw (find_scalar-back n p) refl

abbrev pub character : Coder Char
character = record { write = λ c rest. code c ∷ rest; read = read_char; back = read_char-back }

abbrev pub chars : String → List Char
chars String.[] = []
chars (String.◌∷◌ c s) = c ∷ chars s

abbrev pub text_of : List Char → String
text_of [] = String.[]
text_of (c ∷ cs) = String.◌∷◌ c (text_of cs)

pub text_of-chars : (s : String) → text_of (chars s) ≡ s
text_of-chars String.[] = refl
text_of-chars (String.◌∷◌ c s) = ap (String.◌∷◌ c) (text_of-chars s)

abbrev pub text : Coder String
text = through (list character) chars text_of text_of-chars

abbrev pub parts : ℤ → ℕ × ℕ
parts (pos n) = (0, n)
parts (negsuc n) = (1, n)

abbrev pub integer_of : ℕ × ℕ → ℤ
integer_of (zero, n) = pos n
integer_of (suc k, n) = negsuc n

pub integer_of-parts : (x : ℤ) → integer_of (parts x) ≡ x
integer_of-parts (pos n) = refl
integer_of-parts (negsuc n) = refl

abbrev pub integer : Coder ℤ
integer = through (pair number number) parts integer_of integer_of-parts

abbrev pub as_list : {A : Type 0} → Option A → List A
as_list none = []
as_list (some x) = x ∷ []

abbrev pub head_of : {A : Type 0} → List A → Option A
head_of [] = none
head_of (x ∷ xs) = some x

pub head_of-as_list : {A : Type 0} (o : Option A) → head_of (as_list o) ≡ o
head_of-as_list none = refl
head_of-as_list (some x) = refl

abbrev pub operation : Coder Op
operation =
    through (pair text (pair text (pair (list number) (pair number number))))
      (λ op. (op.type, (op.key, (op.value, (op.client_id, op.sequence_id)))))
      (λ v. record {
        type = v.0;
        key = v.1.0;
        value = v.1.1.0;
        client_id = v.1.1.1.0;
        sequence_id = v.1.1.1.1;
      })
      (λ op. refl)

abbrev pub log_entry : Coder (LogEntry Op)
log_entry =
    through (pair number (through (list operation) as_list head_of head_of-as_list))
      (λ e. (e.term, e.cmd)) (λ v. record { term = v.0; cmd = v.1 }) (λ e. refl)

abbrev pub status : Coder (PersistentStatus Op)
status =
    through (pair (list log_entry) (pair number (pair integer (pair number number))))
      (λ st. (
        st.logs,
        (st.current_term, (st.voted_for, (st.last_included_index, st.last_included_term))),
      ))
      (λ v. record {
        logs = v.0;
        current_term = v.1.0;
        voted_for = v.1.1.0;
        last_included_index = v.1.1.1.0;
        last_included_term = v.1.1.1.1;
      })
      (λ st. refl)

abbrev pub service : Coder SnapshotStatus
service =
    through (pair (list (pair text (list number))) (list (pair number number)))
      (λ st. (st.contents, st.duptable)) (λ v. record { contents = v.0; duptable = v.1 })
      (λ st. refl)

-- A codec puts a zero in front, so that nothing takes no bytes.
module _ {A : Type 0} (a : Coder A) where
  abbrev pub decode : Bytes → Option A
  decode [] = none
  decode (n ∷ bytes) = a.read bytes >>= λ v. some v.0

  abbrev pub codec : Codec A
  codec = record { encode = λ x. some (0 ∷ a.write x []); decode = decode }

  pub codec-IsLossless : IsLossless codec
  codec-IsLossless = record {
    encodes = λ x e. ground arith;
    lossless = λ x b e. ap decode (sym (some_inj e)) ∙ rw (a.back x []) refl;
    nonempty = λ x e. ground arith;
  }

abbrev pub gob : Codec (PersistentStatus Op)
gob = codec status

pub gob-IsLossless : IsLossless gob
gob-IsLossless = codec-IsLossless status

abbrev pub snap : Codec SnapshotStatus
snap = codec service

pub snap-IsLossless : IsLossless snap
snap-IsLossless = codec-IsLossless service
