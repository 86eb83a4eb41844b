-- ===== src/Thread/Names.antt =====
-- Default names tell threads apart.
use yatwb.Base.{ℕ, ◌^◌, ◌<◌, true, ◌≡◌, ◌≢◌, refl, sym, ap, ◌∙◌, [], ◌++◌, drop, arith}
use yatwb.Base.Decimal.{
  decimal, decimal-injective, decimal-AreDigits, digits-HasNoNul, length-decimal,
}
use yatwb.Base.Text.{append-HasNoNul, c_string-snprintf}
use yatwb.Thread.{Thread, thread_text, is_empty_name, set_default_name, running_name}

default_name :
    (n : ℕ) (t : Thread)
    → n < 2 ^ 31
    → t.name ≡ []
    → (set_default_name n t).name ≡ thread_text ++ decimal n
unfolding set_default_name
default_name n t h e =
    let none : is_empty_name t.name ≡ true = ap is_empty_name e in
    rw none (
      c_string-snprintf 32 (thread_text ++ decimal n)
        (omega (arith, length-decimal 9 n (omega (arith, h))))
        (append-HasNoNul thread_text (decimal n) (ground arith)
          (digits-HasNoNul (decimal n) (decimal-AreDigits n))))

named :
    (n : ℕ) (t : Thread)
    → n < 2 ^ 31
    → t.name ≡ []
    → running_name (set_default_name n t) ≡ thread_text ++ decimal n
unfolding running_name
named n t h e = rw (default_name n t h e) refl

-- For threads without a name: if `setDefaultName` is called on two of them, at different counts of
-- the threads made, both of 31 bits, they run under different names; where it is not called, both
-- run under the same one.
pub set_default_name-differs :
    (m n : ℕ) (t u : Thread)
    → m < 2 ^ 31
    → n < 2 ^ 31
    → m ≢ n
    → t.name ≡ []
    → u.name ≡ []
    → (running_name (set_default_name m t) ≢ running_name (set_default_name n u))
      × (running_name t ≡ running_name u)
unfolding running_name
set_default_name-differs m n t u hm hn differ et eu = (
  λ e. differ (decimal-injective m n (ap (drop 6) (sym (named m t hm et) ∙ e ∙ named n u hn eu))),
  rw (et, eu) refl,
)
