-- ===== src/Services/Vpn/Checks.antt =====
-- What CheckIP of service/vpn/service.go takes for a proxy, and when it asks the service.
use gobds.Base.{
  ℕ, ◌+◌, ◌-◌, ◌<◌, length, All, ◌≡◌, ◌⊎◌, refl, sym, ap, subst, ◌∙◌, String, Bool, true, false,
  not, Option, none, some, List, [], ◌∷◌, ◌==◌, nat_eq, string_eq, Bool-cases, inl, inr, arith,
  if_both, ltb, if◌then◌else◌,
}
use gobds.Base.Result.{Result, ok, err, ok-injective}
use gobds.Clock.{Time}
use gobds.Admission.{equal_fold}
use gobds.Services.Vpn.{
  Answer, Addr, Service, ResponseModel, VpnError, Response, Exchange, closed, unmade, failure,
  response, Outcome, done, again, handle_body, handle_response, attempt_once, check_loop,
  query_failed, passes_model, rate_limited, is_whitelisted, rate_limit_active, check_ip,
}

-- A response with status 200 and this body, which does not report a failure.
abbrev pub IsReport : ResponseModel → Exchange → Type 0
IsReport m x =
    (now : Time) × (r : Response) × (x ≡ response now r)
    × (r.status ≡ 200)
    × (r.body ≡ some m)
    × (equal_fold m.status "fail" ≡ false)

abbrev AnyReport : ResponseModel → List Exchange → Type 0
AnyReport m [] = ⊥
AnyReport m (x ∷ xs) = IsReport m x ⊎ AnyReport m xs

-- The three answers that a body that decodes can give.
module _ (b : ResponseModel) where
  reserved-body :
      equal_fold b.status "fail" ≡ true
      → equal_fold b.message "reserved range" ≡ true
      → handle_body (some b) ≡ ok (record b { proxy = false })
  unfolding handle_body
  reserved-body e f = rw (e, f, handle_body) refl

  failed-body :
      equal_fold b.status "fail" ≡ true
      → equal_fold b.message "reserved range" ≡ false
      → handle_body (some b) ≡ err (query_failed b.message)
  unfolding handle_body
  failed-body e f = rw (e, f, handle_body) refl

  fine-body : equal_fold b.status "fail" ≡ false → handle_body (some b) ≡ ok b
  unfolding handle_body
  fine-body e = rw (e, handle_body) refl

body-of-handle_body :
    (body : Option ResponseModel) (m : ResponseModel)
    → handle_body body ≡ ok m
    → m.proxy ≡ true
    → (body ≡ some m) × (equal_fold m.status "fail" ≡ false)
unfolding handle_body
body-of-handle_body none m h p = absurd (cc)
body-of-handle_body (some b) m h p = elim (Bool-cases (equal_fold b.status "fail")) [
  | inl e ↦ elim (Bool-cases (equal_fold b.message "reserved range")) [
    | inl f ↦
        let k : false ≡ m.proxy =
          ap (λ (x : ResponseModel). x.proxy) (ok-injective (sym (reserved-body b e f) ∙ h)) in
        absurd (cc)
    | inr f ↦ let k = sym (failed-body b e f) ∙ h in absurd (cc)
  ]
  | inr e ↦
      let k : b ≡ m = ok-injective (sym (fine-body b e) ∙ h) in
      (ap some k, subst (λ (x : ResponseModel). equal_fold x.status "fail" ≡ false) k e)
]

done-injective : {r t : Result VpnError ResponseModel} → done r ≡ done t → r ≡ t
done-injective e = cc

IsReport-of-done :
    (x : Exchange) (s : Service) (m : ResponseModel)
    → (attempt_once x s).1 ≡ done (ok m)
    → m.proxy ≡ true
    → IsReport m x
unfolding attempt_once handle_response
IsReport-of-done closed s m h p = absurd (cc)
IsReport-of-done unmade s m h p = absurd (cc)
IsReport-of-done (failure true) s m h p = absurd (cc)
IsReport-of-done (failure false) s m h p = absurd (cc)
IsReport-of-done (response now r) s m h p = elim (Bool-cases (r.status == 200)) [
  | inl e ↦
      let k : handle_response r ≡ done (handle_body r.body) = rw (e, handle_response) refl in
      let (same, fine) = body-of-handle_body r.body m (done-injective (sym k ∙ h)) p in
      (now, r, refl, ground arith, same, fine)
  | inr e ↦ absurd (ground arith)
]

Outcome-cases :
    (o : Outcome)
    → ((r : Result VpnError ResponseModel) × (o ≡ done r)) ⊎ ((e : VpnError) × (o ≡ again e))
Outcome-cases (done r) = inl (r, refl)
Outcome-cases (again e) = inr (e, refl)

AnyReport-of-loop :
    (xs : List Exchange) (last : VpnError) (s : Service) (m : ResponseModel)
    → (check_loop xs last s).result ≡ ok m
    → m.proxy ≡ true
    → AnyReport m xs
unfolding check_loop
AnyReport-of-loop [] last s m h p = absurd (cc)
AnyReport-of-loop (x ∷ xs) last s m h p = elim (Outcome-cases (attempt_once x s).1) [
  | inl (r, e) ↦
      let k : (check_loop (x ∷ xs) last s).result ≡ r = rw (e, check_loop) refl in
      inl (IsReport-of-done x s m (e ∙ ap done (sym k ∙ h)) p)
  | inr (e', e) ↦
      let k : (check_loop (x ∷ xs) last s).result ≡ (check_loop xs e' (attempt_once x s).0).result =
        rw (e, check_loop) refl in
      inr (AnyReport-of-loop xs e' (attempt_once x s).0 m (sym k ∙ h) p)
]

no_proxy :
    (m : ResponseModel) (r : Result VpnError ResponseModel)
    → r ≡ ok passes_model
    → r ≡ ok m
    → m.proxy ≡ true
    → ⊥
no_proxy m r e h p =
    let k : false ≡ m.proxy = ap (λ (x : ResponseModel). x.proxy) (ok-injective (sym e ∙ h)) in
    absurd (cc)

-- An address is taken for a proxy only by an enabled service that has no range with it in its whitelist
-- and is not waiting for its rate limit, and only on the word of one of two responses with status 200
-- that report no failure.
pub check_ip-Reported :
    (parse : String → Option Addr) (ip : String) (now : Time) (first second : Exchange)
    (s : Service) (m : ResponseModel)
    → (check_ip parse ip now first second s).result ≡ ok m
    → m.proxy ≡ true
    → (s.enabled ≡ true)
      × (is_whitelisted parse ip s ≡ false)
      × (rate_limit_active now s ≡ false)
      × (IsReport m first ⊎ IsReport m second)
unfolding check_ip
check_ip-Reported parse ip now first second s m h p = elim (Bool-cases s.enabled) [
  | inr e ↦ absurd (no_proxy m _ (ground arith) h p)
  | inl e ↦ elim (Bool-cases (is_whitelisted parse ip s)) [
    | inl f ↦ absurd (no_proxy m _ (ground arith) h p)
    | inr f ↦ elim (Bool-cases (rate_limit_active now s)) [
      | inl g ↦ absurd (ground arith)
      | inr g ↦
          let k : (check_ip parse ip now first second s).result
              ≡ (check_loop (first ∷ second ∷ []) rate_limited s).result =
            ground arith in
          (e, f, g, two (AnyReport-of-loop (first ∷ second ∷ []) rate_limited s m (sym k ∙ h) p))
    ]
  ]
]
  where
    two : AnyReport m (first ∷ second ∷ []) → IsReport m first ⊎ IsReport m second
    two (inl a) = inl a
    two (inr (inl b)) = inr b
    two (inr (inr c)) = absurd c

-- One check after the other, each of an address at a time, with what its attempts would meet.
pub record Check : Type 0 where
  pub ip : String
  pub now : Time
  pub first : Exchange
  pub second : Exchange

-- The service after some checks, and how many exchanges they used.
unfoldable pub run_checks : (String → Option Addr) → List Check → Service → Service × ℕ
run_checks parse [] s = (s, 0)
run_checks parse (c ∷ cs) s =
    let a = check_ip parse c.ip c.now c.first c.second s in
    let (s', n) = run_checks parse cs a.service in (s', 2 - length a.unused + n)

abbrev IsQuiet : Service → Answer → Type 0
IsQuiet s a = (a.service ≡ s) × (length a.unused ≡ 2)

taken :
    (s : Service) (a b : Answer) (t : Bool)
    → t ≡ true
    → IsQuiet s a
    → IsQuiet s (if t then a else b)
taken s a b true e h = h
taken s a b false e h = absurd (cc)

check_ip-IsQuiet :
    (parse : String → Option Addr) (c : Check) (s : Service)
    → c.now < s.rate_limit_reset
    → IsQuiet s (check_ip parse c.ip c.now c.first c.second s)
unfolding check_ip rate_limit_active
check_ip-IsQuiet parse c s early =
    if_both (IsQuiet s) (not s.enabled) (refl, refl)
      (if_both (IsQuiet s) (is_whitelisted parse c.ip s) (refl, refl)
        (taken s _ _ (ltb c.now s.rate_limit_reset) (ground arith) (refl, refl)))

-- While the service waits for its rate limit, checks send no request and leave it as it is.
pub run_checks-Quiet :
    (parse : String → Option Addr) (cs : List Check) (s : Service)
    → All (λ (c : Check). c.now < s.rate_limit_reset) cs
    → run_checks parse cs s ≡ (s, 0)
unfolding run_checks
run_checks-Quiet parse [] s h = refl
run_checks-Quiet parse (c ∷ cs) s (early, rest) =
    let (e, f) = check_ip-IsQuiet parse c s early in
    rw (e, f, run_checks-Quiet parse cs s rest) refl
