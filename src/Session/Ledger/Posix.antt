-- ===== src/Session/Ledger/Posix.antt =====
-- src/session.ts: the path functions of a POSIX system are as a session relies on them.
use Prim.Native.Char.{code}
use Prim.Native.String.{◌++◌ as str_append, count}
use text.Mathlib.TextLemmas.{length-append, nil-append, cons-append, append_assoc}
use subagent.Common.{
  ℕ, zero, suc, ◌<◌, String, Bool, true, false, not, ◌||◌, List, [], ◌∷◌, ◌++◌, all, nat_eq, codes,
  if◌then◌else◌, arith, ◌≡◌, refl, sym, ap, ◌∙◌, subst, eq-false_of_ne, Bool-cases, inl, inr,
}
use subagent.Session.{run_id_of, pi_directory, attempt_directory, staged_name, is_inside, is_prefix}
use subagent.Session.Posix.{
  has_slash, join, basename, dirname, begins, without, encode, marks, posix,
}
use subagent.Session.Ledger.{is_name, IsDirectory, of_session, of_attempt, IsPlatform}

abbrev no_slash : List ℕ → Bool
no_slash cs = all (λ c. not (nat_eq c b'/')) cs

codes-append : (s t : String) → codes (str_append s t) ≡ codes s ++ codes t
codes-append String.[] t = ap codes (nil-append t)
codes-append (String.◌∷◌ c s) t =
    ap codes (cons-append c s t) ∙ ap (λ l. code c ∷ l) (codes-append s t)

no_slash-append :
    (cs ds : List ℕ) → no_slash cs ≡ true → no_slash ds ≡ true → no_slash (cs ++ ds) ≡ true
no_slash-append [] ds h k = k
no_slash-append (c ∷ cs) ds h k = ground (arith, h, no_slash-append cs ds (ground (arith, h)) k)

no_slash-has_slash : (s : String) → no_slash (codes s) ≡ true → has_slash s ≡ false
no_slash-has_slash String.[] h = refl
no_slash-has_slash (String.◌∷◌ c s) h = ground (arith, h, no_slash-has_slash s (ground (arith, h)))

is_name-no_slash : (n : String) → is_name n ≡ true → no_slash (codes n) ≡ true
is_name-no_slash n h = ground (arith, h)

has_slash-join : (d n : String) → has_slash (join d n) ≡ true
has_slash-join String.[] n = ap has_slash (nil-append (String.◌∷◌ "/" n))
has_slash-join (String.◌∷◌ c d) n =
    ap has_slash (cons-append c d (String.◌∷◌ "/" n)) ∙ rw (has_slash-join d n) (ground arith)

basename-join : (d n : String) → has_slash n ≡ false → basename (join d n) ≡ n
basename-join String.[] n h = ap basename (nil-append (String.◌∷◌ "/" n)) ∙ rw h refl
basename-join (String.◌∷◌ c d) n h =
    ap basename (cons-append c d (String.◌∷◌ "/" n)) ∙ rw (has_slash-join d n) (basename-join d n h)

dirname-join : (d n : String) → has_slash n ≡ false → dirname (join d n) ≡ d
dirname-join String.[] n h = ap dirname (nil-append (String.◌∷◌ "/" n)) ∙ rw h refl
dirname-join (String.◌∷◌ c d) n h =
    ap dirname (cons-append c d (String.◌∷◌ "/" n))
    ∙ rw (has_slash-join d n) (ap (String.◌∷◌ c) (dirname-join d n h))

encode-no_slash : (s : String) → no_slash (codes (encode s)) ≡ true
encode-no_slash String.[] = refl
encode-no_slash (String.◌∷◌ c s) = ground (arith, encode-no_slash s)

begins-append : (s t : String) → begins s (str_append s t) ≡ true
begins-append String.[] t = refl
begins-append (String.◌∷◌ c s) t =
    ap (begins (String.◌∷◌ c s)) (cons-append c s t) ∙ ground (arith, begins-append s t)

without-append : (s t : String) → without s (str_append s t) ≡ t
without-append String.[] t = nil-append t
without-append (String.◌∷◌ c s) t =
    ap (without (String.◌∷◌ c s)) (cons-append c s t) ∙ without-append s t

-- Two texts differ at a character of both.
abbrev clash : String → String → Bool
clash (String.◌∷◌ c s) (String.◌∷◌ d t) = not (nat_eq (code c) (code d)) || clash s t
clash _ _ = false

clash-begins :
    (s t u v : String) → clash s t ≡ true → begins (str_append s u) (str_append t v) ≡ false
clash-begins String.[] t u v h = ground (arith, h)
clash-begins (String.◌∷◌ c s) String.[] u v h = ground (arith, h)
clash-begins (String.◌∷◌ c s) (String.◌∷◌ d t) u v h =
    ap (λ x. begins x (str_append (String.◌∷◌ d t) v)) (cons-append c s u)
    ∙ ap (begins (String.◌∷◌ c (str_append s u))) (cons-append d t v)
    ∙ elim (Bool-cases (clash s t)) [
      | inl e ↦ ground (arith, clash-begins s t u v e)
      | inr e ↦ ground (arith, h, e)
    ]

-- How many marks a text begins with.
abbrev leading : String → ℕ
leading String.[] = 0
leading (String.◌∷◌ c s) = let rest = leading s in if nat_eq (code c) b'1' then suc rest else 0

leading-marks : (n : ℕ) (a : String) → leading (str_append (marks n) (str_append "-" a)) ≡ n
leading-marks zero a = ap leading (nil-append (str_append "-" a) ∙ cons-append "-" String.[] a)
leading-marks (suc n) a =
    ap leading (cons-append "1" (marks n) (str_append "-" a)) ∙ ap suc (leading-marks n a)

long-is_name : (s : String) → 2 < count s → no_slash (codes s) ≡ true → is_name s ≡ true
long-is_name s h k =
    let not_empty = eq-false_of_ne s "" (λ e. omega (arith, ap count e, h)) in
    let not_here = eq-false_of_ne s "." (λ e. omega (arith, ap count e, h)) in
    let not_above = eq-false_of_ne s ".." (λ e. omega (arith, ap count e, h)) in
    rw (not_empty, not_here, not_above) k

staged-is_name :
    (n run_id : String) → is_name n ≡ true → is_name (staged_name posix n run_id) ≡ true
unfolding staged_name
staged-is_name n run_id h =
    let rest = str_append ".pending-" (encode run_id) in
    long-is_name (str_append "." (str_append n rest))
      (omega (
        arith,
        length-append "." (str_append n rest),
        length-append n rest,
        length-append ".pending-" (encode run_id),
      ))
      (rw
        (
          codes-append "." (str_append n rest),
          codes-append n rest,
          codes-append ".pending-" (encode run_id),
        )
        (no_slash-append (codes n) _ (is_name-no_slash n h) (encode-no_slash run_id)))

-- A file of a directory below that of the session lies inside it.
inside-below :
    (below n : String)
    → 0 < count below
    → is_prefix (codes "../") (codes below ++ codes (String.◌∷◌ "/" n)) ≡ false
    → is_prefix (codes "/") (codes below ++ codes (String.◌∷◌ "/" n)) ≡ false
    → is_inside posix (join (str_append "/s/" below) n) ≡ true
unfolding is_inside
inside-below below n long above absolute =
    let stripped : without "/s/" (join (str_append "/s/" below) n) ≡ join below n =
      ap (without "/s/") (append_assoc "/s/" below (String.◌∷◌ "/" n))
      ∙ without-append "/s/" (join below n) in
    let not_empty =
      eq-false_of_ne (join below n) ""
        (λ e. omega (arith, ap count e, length-append below (String.◌∷◌ "/" n), long)) in
    rw (stripped, not_empty, codes-append below (String.◌∷◌ "/" n), above, absolute) refl

attempt_below :
    (r : String) → attempt_directory posix r ≡ str_append "/s/" (join "attempt-pi-sessions" r)
unfolding attempt_directory
attempt_below r = append_assoc "/s/" "attempt-pi-sessions" (String.◌∷◌ "/" r)

lies_inside : {d : String} (n : String) → IsDirectory posix d → is_inside posix (join d n) ≡ true
unfolding pi_directory
lies_inside n of_session = inside-below "pi-session" n (omega arith) refl refl
lies_inside n (of_attempt s a hex) =
    let r = run_id_of posix s a in
    let below = join "attempt-pi-sessions" r in
    let opened = codes-append "attempt-pi-sessions" (String.◌∷◌ "/" r) in
    subst (λ d. is_inside posix (join d n) ≡ true) (sym (attempt_below r))
      (inside-below below n (omega (arith, length-append "attempt-pi-sessions" (String.◌∷◌ "/" r)))
        (rw opened refl) (rw opened refl))

session_apart :
    (r n : String)
    → posix.is_under (join (pi_directory posix) n) (attempt_directory posix r) ≡ false
unfolding pi_directory attempt_directory
session_apart r n =
    ap (λ x. begins x (join "/s/pi-session" n))
      (append_assoc "/s/attempt-pi-sessions" (String.◌∷◌ "/" r) "/")
    ∙ clash-begins "/s/attempt-pi-sessions" "/s/pi-session" (str_append (String.◌∷◌ "/" r) "/")
        (String.◌∷◌ "/" n) refl

attempt_under :
    (r n : String)
    → posix.is_under (join (attempt_directory posix r) n) (attempt_directory posix r) ≡ true
attempt_under r n =
    let d = attempt_directory posix r in
    ap (begins (str_append d "/"))
      (ap (str_append d) (sym (slash_before n)) ∙ sym (append_assoc d "/" n))
    ∙ begins-append (str_append d "/") n
  where
    slash_before : (n : String) → str_append "/" n ≡ String.◌∷◌ "/" n
    slash_before n = cons-append "/" String.[] n ∙ ap (String.◌∷◌ "/") (nil-append n)

pub posix-IsPlatform : IsPlatform posix
unfolding run_id_of
posix-IsPlatform = record {
  run_id_apart = λ s t a b h.
      eq-false_of_ne _ _ (λ e. h (sym (leading-marks s a) ∙ ap leading e ∙ leading-marks t b));
  dirname-join = λ {d} n k h. dirname-join d n (no_slash-has_slash n (is_name-no_slash n h));
  basename-join = λ {d} n k h. basename-join d n (no_slash-has_slash n (is_name-no_slash n h));
  staged_name-is_name = λ s a n k h. staged-is_name n (run_id_of posix s a) h;
  attempt_under = λ s a n k h. attempt_under (run_id_of posix s a) n;
  session_apart = λ s a n k h. session_apart (run_id_of posix s a) n;
  lies_inside = λ n k h. lies_inside n k;
}
