-- ===== src/Poller/Fill.antt =====
-- `fillActiveChannels`: the loop over the slots that have events.
use yatwb.Base.{
  ℕ, suc, zero, ◌≤◌, ◌≡◌, ◌≢◌, ap₂, ◌==◌, ==_iff, refl, sym, ap, ◌∙◌, inl, inr, true, false, Option,
  some, List, [], ◌∷◌, ◌++◌, map, length, arith, Bool-cases, if◌then◌else◌, append_assoc,
  append-nil,
}
use yatwb.Base.Results.{Ensures, Ensures-mono}
use yatwb.Base.Int.{ℤ, ◌==ℤ◌, ==ℤ_iff}
use yatwb.Channel.{Channel, PollFlags, some_event}
use yatwb.Poller.{PollFd, put_channel, fill_active_channels}

-- The slots with events, and how many there are.
abbrev pub ready : List PollFd → List PollFd
ready [] = []
ready (pfd ∷ fds) = if some_event pfd.revents then pfd ∷ ready fds else ready fds

-- What `fillActiveChannels` never changes in a channel.
abbrev pub SamePlace : Channel → Channel → Type 0
SamePlace a b =
    (a.fd ≡ b.fd)
    × (a.index ≡ b.index)
    × (a.events ≡ b.events)
    × (a.owner_loop ≡ b.owner_loop)
    × (a.loop ≡ b.loop)

-- `c` is not in the list; and the list has nothing twice.
abbrev pub DiffersFrom : ℕ → List ℕ → Type 0
DiffersFrom c [] = Unit {0}
DiffersFrom c (d ∷ ds) = (c ≢ d) × DiffersFrom c ds

abbrev pub AreDistinct : List ℕ → Type 0
AreDistinct [] = Unit {0}
AreDistinct (c ∷ cs) = DiffersFrom c cs × AreDistinct cs

-- The results that channels and slots hold.
abbrev pub results_of : (ℕ → Channel) → List ℕ → List PollFlags
results_of channels cs = map (λ c. (channels c).revents) cs

abbrev pub slot_results : List PollFd → List PollFlags
slot_results fds = map (λ (pfd : PollFd). pfd.revents) fds

-- A slot with events holds the fd of a mapped channel.
abbrev pub IsDeliverable : (ℤ → Option ℕ) → (ℕ → Channel) → PollFd → Type 0
IsDeliverable m channels pfd =
    some_event pfd.revents ≡ true → (c : ℕ) × (m pfd.fd ≡ some c) × ((channels c).fd ≡ pfd.fd)

abbrev pub AllDeliverable : (ℤ → Option ℕ) → (ℕ → Channel) → List PollFd → Type 0
AllDeliverable m channels [] = Unit
AllDeliverable m channels (pfd ∷ fds) = IsDeliverable m channels pfd × AllDeliverable m channels fds

AllDeliverable-mono :
    (m : ℤ → Option ℕ) (f g : ℕ → Channel) (fds : List PollFd)
    → ((d : ℕ) → SamePlace (g d) (f d))
    → AllDeliverable m f fds
    → AllDeliverable m g fds
AllDeliverable-mono m f g [] same all = tt
AllDeliverable-mono m f g (pfd ∷ fds) same all = (
  λ h. let (c, e, x) = all.0 h in (c, e, (same c).0 ∙ x),
  AllDeliverable-mono m f g fds same all.1,
)

-- The result of the loop over `fds`.
abbrev pub IsFilled :
    (ℤ → Option ℕ) → List PollFd → List ℕ × (ℕ → Channel) → List ℕ × (ℕ → Channel) → Type 0
IsFilled m fds (active, channels) (active', channels') =
    (cs : List ℕ) × (active' ≡ active ++ cs)
    × (map some cs ≡ map (λ (pfd : PollFd). m pfd.fd) (ready fds))
    × ((d : ℕ) → SamePlace (channels' d) (channels d))
    × ((d : ℕ) → DiffersFrom d cs → channels' d ≡ channels d)
    × (AreDistinct cs → results_of channels' cs ≡ slot_results (ready fds))

pub length-map : {A B : Type 0} (xs : List A) (f : A → B) → length (map f xs) ≡ length xs
length-map [] f = refl
length-map (x ∷ xs) f = ap suc (length-map xs f)

pub nil_of_length : (xs : List PollFd) → length xs ≤ 0 → xs ≡ []
nil_of_length [] h = refl
nil_of_length (x ∷ xs) h = absurd (omega arith)

-- The result of one delivery.
abbrev marked : (ℕ → Channel) → ℕ → PollFlags → ℕ → Channel
marked channels c revents = put_channel channels c (record (channels c) { revents = revents })

marked-SamePlace :
    (channels : ℕ → Channel) (c : ℕ) (revents : PollFlags) (d : ℕ)
    → SamePlace (marked channels c revents d) (channels d)
marked-SamePlace channels c revents d = elim (Bool-cases (d == c)) [
  | inl same ↦ let e : d ≡ c = (==_iff d c).0 same in rw (same, e) (refl, refl, refl, refl, refl)
  | inr other ↦ rw other (refl, refl, refl, refl, refl)
]

marked_ne :
    (channels : ℕ → Channel) (c : ℕ) (revents : PollFlags) (d : ℕ)
    → d ≢ c
    → marked channels c revents d ≡ channels d
marked_ne channels c revents d h = let other : (d == c) ≡ false = ground arith in rw other refl

marked_self :
    (channels : ℕ → Channel) (c : ℕ) (revents : PollFlags)
    → (marked channels c revents c).revents ≡ revents
marked_self channels c revents = let same : (c == c) ≡ true = ground arith in rw same refl

counted :
    (pfd : PollFd) (fds : List PollFd) {n : ℕ}
    → some_event pfd.revents ≡ true
    → length (ready (pfd ∷ fds)) ≤ suc n
    → length (ready fds) ≤ n
counted pfd fds {n} t h = let h' : length (pfd ∷ ready fds) ≤ suc n = rw t at h in omega arith

skipped :
    (pfd : PollFd) (fds : List PollFd) {n : ℕ}
    → some_event pfd.revents ≡ false
    → length (ready (pfd ∷ fds)) ≤ n
    → length (ready fds) ≤ n
skipped pfd fds {n} f h = rw f at h

IsFilled-cons :
    (m : ℤ → Option ℕ) (pfd : PollFd) (fds : List PollFd) (c : ℕ) (s r : List ℕ × (ℕ → Channel))
    → some_event pfd.revents ≡ true
    → m pfd.fd ≡ some c
    → IsFilled m fds (s.0 ++ c ∷ [], marked s.1 c pfd.revents) r
    → IsFilled m (pfd ∷ fds) s r
IsFilled-cons m pfd fds c (active, channels) (active', channels') t e
      (cs, is, found, same, rest, results) =
    (
      c ∷ cs,
      is ∙ append_assoc active (c ∷ []) cs,
      rw (t, e) (ap (◌∷◌ (some c)) found),
      λ d.
          let a = same d in
          let b = marked-SamePlace channels c pfd.revents d in
          (a.0 ∙ b.0, a.1 ∙ b.1, a.2 ∙ b.2, a.3 ∙ b.3, a.4 ∙ b.4),
      λ d h. rest d h.1 ∙ marked_ne channels c pfd.revents d h.0,
      λ distinct. rw t (
          ap₂ ◌∷◌ (ap (λ ch. ch.revents) (rest c distinct.0) ∙ marked_self channels c pfd.revents)
            (results distinct.1)),
    )

IsFilled-skip :
    (m : ℤ → Option ℕ) (pfd : PollFd) (fds : List PollFd) (s r : List ℕ × (ℕ → Channel))
    → some_event pfd.revents ≡ false
    → IsFilled m fds s r
    → IsFilled m (pfd ∷ fds) s r
IsFilled-skip m pfd fds (active, channels) (active', channels') f
      (cs, is, found, same, rest, results) =
    (cs, is, rw f found, same, rest, λ distinct. rw f (results distinct))

pub fill_lem :
    (m : ℤ → Option ℕ) (fds : List PollFd) (n : ℕ) (active : List ℕ) (channels : ℕ → Channel)
    → AllDeliverable m channels fds
    → length (ready fds) ≤ n
    → Ensures (fill_active_channels m fds n (active, channels)) (IsFilled m fds (active, channels))
unfolding fill_active_channels
fill_lem m [] n active channels all h = (
  [],
  sym (append-nil active),
  refl,
  λ d. (refl, refl, refl, refl, refl),
  λ d h. refl,
  λ distinct. refl,
)
fill_lem m (pfd ∷ fds) zero active channels all h = (
  [],
  sym (append-nil active),
  sym (ap (map (λ (p : PollFd). m p.fd)) (nil_of_length (ready (pfd ∷ fds)) h)),
  λ d. (refl, refl, refl, refl, refl),
  λ d h. refl,
  λ distinct. sym (ap slot_results (nil_of_length (ready (pfd ∷ fds)) h)),
)
fill_lem m (pfd ∷ fds) (suc n) active channels all h = elim (Bool-cases (some_event pfd.revents)) [
  | inl t ↦
      let (c, e, x) = all.0 t in
      let own : ((channels c).fd ==ℤ pfd.fd) ≡ true = (==ℤ_iff _ _).1 x in
      let rest : length (ready fds) ≤ n = counted pfd fds t h in
      rw (t, e, own)
        (Ensures-mono (IsFilled m fds (active ++ c ∷ [], marked channels c pfd.revents))
          (IsFilled m (pfd ∷ fds) (active, channels))
          (fill_active_channels m fds n (active ++ c ∷ [], marked channels c pfd.revents))
          (fill_lem m fds n (active ++ c ∷ []) (marked channels c pfd.revents)
            (AllDeliverable-mono m channels (marked channels c pfd.revents) fds
              (marked-SamePlace channels c pfd.revents) all.1)
            rest)
          (λ r filled. IsFilled-cons m pfd fds c (active, channels) r t e filled))
  | inr f ↦ rw f (
      Ensures-mono (IsFilled m fds (active, channels)) (IsFilled m (pfd ∷ fds) (active, channels))
        (fill_active_channels m fds (suc n) (active, channels))
        (fill_lem m fds (suc n) active channels all.1 (skipped pfd fds f h))
        (λ r filled. IsFilled-skip m pfd fds (active, channels) r f filled))
]
