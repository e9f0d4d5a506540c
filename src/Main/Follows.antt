-- ===== src/Main/Follows.antt =====
-- A run that gives its commands in the order of a plan, and stops early only with an error.
use go_smartmontools.Base.{
  ◌≡◌, refl, ◌∙◌, sym, ap, List, [], ◌∷◌, ◌++◌, append_assoc, append-nil, String, Bytes, Option,
  none, some, Result, ok, err, panic, Error, wrap_err,
}
use go_smartmontools.Main.{Command, World, Run, ◌>>=◌, lift, call, print, ask, warn}

-- The commands of a run behind those before it: the first of the plan, and all of it on success.
abbrev pub FollowsFrom : {A : Type 0} → List Command → List Command → Result A × World → Type 0
FollowsFrom {A} before plan r =
    (done left : List Command) × (plan ≡ done ++ left)
    × (r.1.commands ≡ before ++ done)
    × ((a : A) → r.0 ≡ ok a → left ≡ [])

pub record Follows {A : Type 0} (plan : List Command) (m : Run A) : Type 0 where
  pub from : (w : World) → FollowsFrom w.commands plan (m w)

-- The rest of a run behind its first part, by how that part ended.
Follows-then :
    {A B : Type 0} (before p q : List Command) (r : Result A × World) (f : A → Run B)
    → FollowsFrom before p r
    → ((a : A) → Follows q (f a))
    → FollowsFrom before (p ++ q) (((λ w. r) >>= f) r.1)
Follows-then before p q (ok a, w) f (done, left, plan, given, all) hf =
    let (done', left', plan', given', all') = (hf a).from w in
    (
      done ++ done',
      left',
      (ap (λ l. l ++ q) (plan ∙ ap (λ l. done ++ l) (all a refl) ∙ append-nil done)
          ∙ ap (λ l. done ++ l) plan'
          ∙ sym (append_assoc done done' left')),
      given' ∙ ap (λ l. l ++ done') given ∙ append_assoc before done done',
      all',
    )
Follows-then before p q (err e, w) f (done, left, plan, given, all) hf =
    (done, left ++ q, ap (λ l. l ++ q) plan ∙ append_assoc done left q, given, λ a h. absurd (cc))
Follows-then before p q (panic, w) f (done, left, plan, given, all) hf =
    (done, left ++ q, ap (λ l. l ++ q) plan ∙ append_assoc done left q, given, λ a h. absurd (cc))

pub Follows-bind :
    {A B : Type 0} (p q : List Command) {m : Run A} {f : A → Run B}
    → Follows p m
    → ((a : A) → Follows q (f a))
    → Follows (p ++ q) (m >>= f)
Follows-bind p q {m} {f} hm hf = record {
  from = λ w. Follows-then w.commands p q (m w) f (hm.from w) hf;
}

-- A run that gives no command.
silent : {A : Type 0} (m : Run A) → ((w : World) → (m w).1.commands ≡ w.commands) → Follows [] m
silent m h = record { from = λ w. ([], [], refl, h w ∙ sym (append-nil w.commands), λ a e. refl) }

Follows-call : {A : Type 0} (c : Command) (a : A) → Follows (c ∷ []) (call c a)
Follows-call c a = record { from = λ w. (c ∷ [], [], refl, refl, λ b h. refl) }

pub Follows-lift : {A : Type 0} (r : Result A) → Follows [] (lift r)
Follows-lift r = silent (lift r) λ w. refl

pub Follows-print : (s : Bytes) → Follows [] (print s)
Follows-print s = silent (print s) λ w. refl

warn-commands : (e : Option Error) (w : World) → (warn e w).1.commands ≡ w.commands
unfolding warn
warn-commands none w = refl
warn-commands (some e) w = refl

-- The statements of a do block, one by one.
module _ {A B : Type 0} {q : List Command} {f : A → Run B} where
  pub lift_then : (r : Result A) → ((a : A) → Follows q (f a)) → Follows q (lift r >>= f)
  lift_then r rest = Follows-bind [] q (Follows-lift r) rest

  pub call_then :
      (c : Command) (a : A) → ((b : A) → Follows q (f b)) → Follows (c ∷ q) (call c a >>= f)
  call_then c a rest = Follows-bind (c ∷ []) q (Follows-call c a) rest

  pub ask_then :
      (c : Command) (what : String) (r : Result A)
      → ((a : A) → Follows q (f a))
      → Follows (c ∷ q) (ask c what r >>= f)
  ask_then c what r rest =
      Follows-bind (c ∷ []) q
        (Follows-bind (c ∷ []) [] (Follows-call c r) λ a. Follows-lift (wrap_err what a)) rest

pub warn_then :
    {B : Type 0} {q : List Command} {f : Unit {0} → Run B} (e : Option Error)
    → ((a : Unit) → Follows q (f a))
    → Follows q (warn e >>= f)
warn_then {B} {q} {f} e rest = Follows-bind [] q (silent (warn e) (warn-commands e)) rest
