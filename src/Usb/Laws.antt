-- ===== src/Usb/Laws.antt =====
-- How a transfer can end, and what a call leaves: the triples that proofs about the drivers use.
use rtl_sdr_blog.Common.{Bool, Option, false, if◌then◌else◌, some, true, ℕ, ◌∷◌, ◌≡◌}
use rtl_sdr_blog.State.{
  Dev, M, R82xx, Reply, Res, Transfer, done, err, fail, failed, fault, finally_r82xx, get,
  get_r82xx, ignore, modify_r82xx, ok, or_stuck, pure, when, ◌>>=◌, ◌>>◌,
}
use rtl_sdr_blog.Usb.{status}

-- The state after a transfer.
abbrev pub logged : Transfer → Reply → Dev → Dev
logged t r d = record d { log = record { transfer = t; reply = r } ∷ d.log }

-- Partial by errors and total otherwise: the call returns, and if it returns no error then `Q`
-- holds of the value and the state.
abbrev pub Ensures : {A : Type 0} → (A → Dev → Type 0) → Res A → Type 0
Ensures Q (ok a e) = Q a e
Ensures Q (err n e) = Unit
Ensures Q fault = ⊥

-- The call returns, and a call that returns no error leaves `P` as it was.
pub record Keeps {A : Type 0} (P : Dev → Type 0) (m : M A) : Type 0 where
  pub run : (d : Dev) → P d → Ensures (λ a e. P e) (m d)

pub Ensures-bind :
    {A B : Type 0} (P : A → Dev → Type 0) (Q : B → Dev → Type 0) (m : M A) (f : A → M B) (d : Dev)
    → Ensures P (m d)
    → ((a : A) (e : Dev) → P a e → Ensures Q (f a e))
    → Ensures Q ((m >>= f) d)
Ensures-bind {A} {B} P Q m f d h k =
    (elim (m d) as (λ r. Ensures P r → Ensures Q (bind_res r)) [
      | ok a e ↦ λ p. k a e p
      | err n e ↦ λ p. tt
      | fault ↦ λ p. p
    ])
      h
  where
    bind_res : Res A → Res B
    bind_res r = elim r [ ok a e ↦ f a e | err n e ↦ err n e | fault ↦ fault ]

pub Ensures-weaken :
    {A : Type 0} (P Q : A → Dev → Type 0) (r : Res A)
    → Ensures P r
    → ((a : A) (e : Dev) → P a e → Q a e)
    → Ensures Q r
Ensures-weaken P Q (ok a e) h k = k a e h
Ensures-weaken P Q (err n e) h k = tt
Ensures-weaken P Q fault h k = h

module _ {P : Dev → Type 0} where
  pub Keeps-bind :
      {A B : Type 0} {m : M A} {f : A → M B}
      → Keeps P m
      → ((a : A) → Keeps P (f a))
      → Keeps P (m >>= f)
  Keeps-bind {m} {f} h k = record {
    run = λ d p. Ensures-bind (λ a e. P e) (λ b e. P e) m f d (h.run d p) (λ a e q. (k a).run e q);
  }

  pub Keeps-then :
      {B : Type 0} {m : M (Unit {0})} {k : M B}
      → Keeps P m
      → (Unit {0} → Keeps P k)
      → Keeps P (m >> k)
  Keeps-then h k = Keeps-bind h k

  pub Keeps-pure : {A : Type 0} (a : A) → Keeps P (pure a)
  Keeps-pure a = record { run = λ d v. v }

  pub Keeps-fail : {A : Type 0} (n : ℕ) → Keeps {A = A} P (fail n)
  Keeps-fail n = record { run = λ d v. tt }

  pub Keeps-get : Keeps P get
  unfolding get
  Keeps-get = record { run = λ d v. v }

  pub Keeps-get_r82xx : Keeps P get_r82xx
  unfolding get_r82xx
  Keeps-get_r82xx = record { run = λ d v. v }

  pub Keeps-or_stuck : {A : Type 0} (o : Option A) (a : A) → o ≡ some a → Keeps P (or_stuck o)
  Keeps-or_stuck o a e = record { run = λ d v. rw e v }

  pub Keeps-when : (b : Bool) {m : M (Unit {0})} → Keeps P m → Keeps P (when b m)
  Keeps-when true h = record { run = λ d p. h.run d p }
  Keeps-when false h = record { run = λ d p. p }

  pub Keeps-unless : (b : Bool) (m : M (Unit {0})) → b ≡ false → Keeps P (when b m)
  Keeps-unless b m e = record { run = λ d p. rw e p }

  pub Keeps-if :
      {A : Type 0} (b : Bool) {m n : M A} → Keeps P m → Keeps P n → Keeps P (if b then m else n)
  Keeps-if true h k = h
  Keeps-if false h k = k

  pub Keeps-finally :
      (f : R82xx → R82xx) {m : M (Unit {0})}
      → Keeps P m
      → Keeps P (modify_r82xx f)
      → Keeps P (finally_r82xx f m)
  unfolding modify_r82xx
  Keeps-finally f {m} h k = record { run = λ d p. after (m d) (h.run d p) }
    where
      after :
          (r : Res (Unit {0}))
          → Ensures (λ a e. P e) r
          → Ensures
              (λ (a : Unit {0}) e. P e)
              (elim r [
                | ok a e ↦ ok a (record e { r82xx = f e.r82xx })
                | err n e ↦ err n (record e { r82xx = f e.r82xx })
                | fault ↦ fault
              ])
      after (ok a e) q = k.run e q
      after (err n e) q = tt
      after fault q = q

-- The state after a call that returned, with an error or without.
abbrev pub After : {A : Type 0} → (Dev → Type 0) → Res A → Type 0
After P (ok a e) = P e
After P (err n e) = P e
After P fault = ⊥

-- The call returns, and keeps `P` even if it fails.
pub record Always {A : Type 0} (P : Dev → Type 0) (m : M A) : Type 0 where
  pub run : (d : Dev) → P d → After P (m d)

After→Ensures : {A : Type 0} (P : Dev → Type 0) (r : Res A) → After P r → Ensures (λ a e. P e) r
After→Ensures P (ok a e) h = h
After→Ensures P (err n e) h = tt
After→Ensures P fault h = h

module _ {P : Dev → Type 0} where
  pub Always→Keeps : {A : Type 0} {m : M A} → Always P m → Keeps P m
  Always→Keeps {m} h = record { run = λ d p. After→Ensures P (m d) (h.run d p) }

  pub Always-pure : {A : Type 0} (a : A) → Always P (pure a)
  Always-pure a = record { run = λ d p. p }

  pub Always-get : Always P get
  unfolding get
  Always-get = record { run = λ d p. p }

  pub Always-status : (r : Reply) → Always P (status r)
  Always-status (done n f) = record { run = λ d p. p }
  Always-status (failed n) = record { run = λ d p. p }

  pub Always-bind :
      {A B : Type 0} {m : M A} {f : A → M B}
      → Always P m
      → ((a : A) → Always P (f a))
      → Always P (m >>= f)
  Always-bind {A} {B} {m} {f} h k = record { run = λ d p. on_result (m d) (h.run d p) }
    where
      on_result :
          (r : Res A)
          → After P r
          → After {A = B} P (elim r [ ok a e ↦ f a e | err n e ↦ err n e | fault ↦ fault ])
      on_result (ok a e) q = (k a).run e q
      on_result (err n e) q = q
      on_result fault q = q

  pub Always-ignore : {A : Type 0} {m : M A} → Always P m → Always P (ignore m)
  Always-ignore {A} {m} h = record { run = λ d p. on_result (m d) (h.run d p) }
    where
      on_result :
          (r : Res A)
          → After P r
          → After {A = Unit {0}} P (elim r [ ok a e ↦ ok tt e | err n e ↦ ok tt e | fault ↦ fault ])
      on_result (ok a e) q = q
      on_result (err n e) q = q
      on_result fault q = q
