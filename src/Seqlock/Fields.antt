-- ===== src/Seqlock/Fields.antt =====
-- Which words belong to a publication, and which of them are stored.
use tenzor_bus.Common.{
  ℕ, zero, suc, ◌+◌, ◌<◌, ◌≡◌, refl, sym, Bool, true, false, ◌||◌, ◌==◌, List, [], ◌∷◌, ◌++◌, arith,
  subst,
}
use tenzor_bus.Proto.{slot_header_size}
use tenzor_bus.Seqlock.{
  Publication, World, header, loads, words_from, payload_words, nbytes_word, readers_word, put,
  put_of,
}

unfoldable pub contains : ℕ → List ℕ → Bool
contains o [] = false
contains o (x ∷ xs) = o == x || contains o xs

pub contains-nil : (o : ℕ) → contains o [] ≡ false
unfolding contains
contains-nil o = refl

pub contains-head : (o : ℕ) (xs : List ℕ) → contains o (o ∷ xs) ≡ true
unfolding contains
contains-head o xs = ground arith

pub contains-cons : (o x : ℕ) (xs : List ℕ) → contains o xs ≡ true → contains o (x ∷ xs) ≡ true
unfolding contains
contains-cons o x xs e = ground arith

pub contains-tail : (o x : ℕ) (xs : List ℕ) → contains o (x ∷ xs) ≡ false → contains o xs ≡ false
unfolding contains
contains-tail o x xs e = ground arith

-- The words that a consumer may read: the header's, but for its owner and the count of readers, and
-- the payload's.
abbrev pub fields : Publication → List ℕ
fields p = header ++ payload_words p

-- The slot's words are those of publication `n`.
abbrev pub Whole : ℕ → World → Type 0
Whole n w = (o : ℕ) → contains o (fields (w.book n)) ≡ true → w.word o ≡ (w.book n).word o

-- They are, but for the words of a list.
abbrev pub Done : ℕ → List ℕ → World → Type 0
Done n os w =
    (o : ℕ)
    → contains o (fields (w.book n)) ≡ true
    → contains o os ≡ false
    → w.word o ≡ (w.book n).word o

pub Done-put : (n x : ℕ) (os : List ℕ) (w : World) → Done n (x ∷ os) w → Done n os (put_of n x w)
unfolding contains
Done-put n x os w d o h e = ground (arith, d o h)

contains-append :
    (o : ℕ) (xs ys : List ℕ) → contains o (xs ++ ys) ≡ (contains o xs || contains o ys)
unfolding contains
contains-append o [] ys = ground arith
contains-append o (x ∷ xs) ys = ground (arith, contains-append o xs ys)

contains_below : (o a k : ℕ) → o < a → contains o (words_from a k) ≡ false
unfolding contains words_from
contains_below o a zero h = ground arith
contains_below o a (suc k) h = ground (arith, contains_below o (a + 1) k)

contains_above : (i a k : ℕ) → i < k → contains (a + i) (words_from a k) ≡ true
unfolding contains words_from
contains_above i a zero h = absurd (omega arith)
contains_above zero a (suc k) h = ground arith
contains_above (suc i) a (suc k) h =
    let e : a + 1 + i ≡ a + suc i = omega arith in
    let later : contains (a + suc i) (words_from (a + 1) k) ≡ true =
      subst (λ x. contains x (words_from (a + 1) k) ≡ true) e
        (contains_above i (a + 1) k (omega arith)) in
    ground (arith, later)

-- A word of the slot's header that the header's list does not have is no field.
pub not_a_field :
    (o : ℕ) (p : Publication)
    → o < slot_header_size
    → contains o header ≡ false
    → contains o (fields p) ≡ false
not_a_field o p h e = ground (
  arith,
  contains-append o header (payload_words p),
  contains_below o slot_header_size (p.word nbytes_word),
)

pub header-field :
    (o : ℕ) (p : Publication) → contains o header ≡ true → contains o (fields p) ≡ true
header-field o p e = ground (arith, contains-append o header (payload_words p))

-- The bytes of the payload are fields.
pub payload-field :
    (i : ℕ) (p : Publication)
    → i < p.word nbytes_word
    → contains (slot_header_size + i) (fields p) ≡ true
payload-field i p h = ground (
  arith,
  contains-append (slot_header_size + i) header (payload_words p),
  contains_above i slot_header_size (p.word nbytes_word),
)

-- The slot's words are a publication's, as long as that is the one in the book.
pub Whole-book :
    (n : ℕ) (w : World) (book : ℕ → Publication)
    → book n ≡ w.book n
    → Whole n w
    → Whole n (record w { book = book })
Whole-book n w book e whole =
    subst (λ p. (o : ℕ) → contains o (fields p) ≡ true → w.word o ≡ p.word o) (sym e) whole

-- A word that is no field may change.
pub put-Whole :
    (n o v : ℕ) (w : World)
    → ((p : Publication) → contains o (fields p) ≡ false)
    → Whole n w
    → Whole n (put o v w)
put-Whole n o v w apart whole x h = ground (arith, whole x h, apart (w.book n))

pub readers_apart : (p : Publication) → contains readers_word (fields p) ≡ false
unfolding contains
readers_apart p = not_a_field readers_word p (omega arith) refl

-- The words that a consumer loads are the header's.
pub loads-header : (o : ℕ) → contains o loads ≡ true → contains o header ≡ true
unfolding contains
loads-header o h = ground arith
