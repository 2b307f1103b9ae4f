-- ===== src/Crawler/Page/Granted.antt =====
-- Steps of `crawlPage` (tlgs/crawler/crawler.cpp) that request only what they have been allowed to.
use tlgs.Common.{
  ℕ, suc, ◌≤◌, ◌≡◌, refl, ap, ◌∙◌, Bool, true, false, ◌&&◌, List, [], ◌∷◌, ◌++◌, Option, none, some,
  if◌then◌else◌, Bytes, any, bytes_eq, bytes_eq_refl, arith,
}
use tlgs.Crawler.Policy.{Answers, Outcome, should_crawl, rules_request}
use tlgs.Crawler.Page.World.{
  Result, ok, thrown, Event, executed, asked, stored, requested, requested_rules, note_rules, State,
  World, Setting, M, ◌>>=◌, take_outcome, take_answers, ask,
}
use tlgs.Crawler.Page.Quiet.{is_request, no_requests, Grown, Quiet, ask-Quiet}

-- Does the event allow to request `url`?
abbrev pub is_grant : Bytes → Event → Bool
is_grant url (asked u allowed) = allowed && bytes_eq u url
is_grant url (stored u) = bytes_eq u url
is_grant url (executed st) = false
is_grant url (requested u) = false
is_grant url (requested_rules u) = false

abbrev pub is_granted : Bytes → List Event → Bool
is_granted url log = any (is_grant url) log

-- Is each request allowed by what stands behind it in the log, which came before?
abbrev pub all_granted : List Event → Bool
all_granted [] = true
all_granted (requested url ∷ log) = is_granted url log && all_granted log
all_granted (e ∷ log) = all_granted log

abbrev pub count_requests : List Event → ℕ
count_requests [] = 0
count_requests (e ∷ log) = if is_request e then suc (count_requests log) else count_requests log

pub quiet-all_granted :
    (added log : List Event)
    → no_requests added ≡ true
    → all_granted log ≡ true
    → all_granted (added ++ log) ≡ true
quiet-all_granted [] log q h = h
quiet-all_granted (executed st ∷ added) log q h = quiet-all_granted added log q h
quiet-all_granted (asked u b ∷ added) log q h = quiet-all_granted added log q h
quiet-all_granted (requested_rules u ∷ added) log q h = quiet-all_granted added log q h
quiet-all_granted (stored u ∷ added) log q h = quiet-all_granted added log q h
quiet-all_granted (requested u ∷ added) log q h = absurd (cc)

pub quiet-count_requests :
    (added log : List Event)
    → no_requests added ≡ true
    → count_requests (added ++ log) ≡ count_requests log
quiet-count_requests [] log q = refl
quiet-count_requests (e ∷ added) log q = ground (arith, quiet-count_requests added log)

pub more-is_granted :
    (url : Bytes) (added log : List Event)
    → is_granted url log ≡ true
    → is_granted url (added ++ log) ≡ true
more-is_granted url [] log h = h
more-is_granted url (e ∷ added) log h = ground (arith, more-is_granted url added log)

module _ {a b : List Event} (g : Grown a b) where
  pub Grown-all_granted : all_granted a ≡ true → all_granted b ≡ true
  Grown-all_granted h = ap all_granted g.is_longer ∙ quiet-all_granted g.added a g.is_quiet h

  pub Grown-count_requests : count_requests b ≡ count_requests a
  Grown-count_requests = ap count_requests g.is_longer ∙ quiet-count_requests g.added a g.is_quiet

  pub Grown-is_granted : (url : Bytes) → is_granted url a ≡ true → is_granted url b ≡ true
  Grown-is_granted url h = ap (is_granted url) g.is_longer ∙ more-is_granted url g.added a h

-- What a part of the code leaves: `Q` of its result and the log, if it throws nothing.
abbrev pub Holds {ℓ} : {A : Type ℓ} → (A → List Event → Type 0) → Result A → List Event → Type 0
Holds Q (ok a) log = Q a log
Holds Q (thrown e) log = Unit {0}

pub record Sound {ℓ} {A : Type ℓ} (n : ℕ) (Q : A → List Event → Type 0) (r : Result A) (s : State)
    : Type 0 where
  pub granted : all_granted s.log ≡ true
  pub few : count_requests s.log ≤ n
  pub holds : Holds Q r s.log

abbrev pub Ends {ℓ} : {A : Type ℓ} → ℕ → (A → List Event → Type 0) → M A → State → Type 0
Ends n Q m s = Sound n Q (m s).0 (m s).1

module _ {ℓ κ} {A : Type ℓ} {B : Type κ} (n k : ℕ) (P : A → List Event → Type 0)
    (Q : B → List Event → Type 0) (f : A → M B) where
  pub bind-Ends :
      (m : M A) (s : State)
      → Ends n P m s
      → n ≤ k
      → ((a : A) (s' : State)
          → all_granted s'.log ≡ true
          → count_requests s'.log ≤ n
          → P a s'.log
          → Ends k Q (f a) s')
      → Ends k Q (m >>= f) s
  bind-Ends m s e le h = after (m s).0 (m s).1 e
    where
      after : (r : Result A) (s' : State) → Sound n P r s' → Ends k Q (◌>>=◌ (λ _. (r, s')) f) s
      after (ok a) s' x = h a s' x.granted x.few x.holds
      after (thrown e) s' x = record { granted = x.granted; few = omega (arith, x.few); holds = tt }

-- A quiet part says nothing new but that.
abbrev pub Anything {ℓ} : {A : Type ℓ} → A → List Event → Type 0
Anything a log = Unit {0}

pub Holds-any {ℓ} :
    {A : Type ℓ} (P : List Event → Type 0) (r : Result A) (log : List Event)
    → P log
    → Holds (λ _ l. P l) r log
Holds-any P (ok a) log h = h
Holds-any P (thrown e) log h = tt

module _ {ℓ} {A : Type ℓ} (n : ℕ) (m : M A) (q : Quiet m) (s : State)
    (granted : all_granted s.log ≡ true) (few : count_requests s.log ≤ n) where
  pub quiet-Ends :
      (P : List Event → Type 0)
      → ((log : List Event) → Grown s.log log → P log)
      → Ends n (λ _ l. P l) m s
  quiet-Ends P h =
      let g = q.grows s in
      record {
        granted = Grown-all_granted g granted;
        few = omega (arith, Grown-count_requests g);
        holds = Holds-any P (m s).0 (m s).1.log (h (m s).1.log g);
      }

  pub quiet-Ends_any : Ends n Anything m s
  quiet-Ends_any = quiet-Ends (λ _. Unit {0}) (λ log g. tt)

-- a page that may be crawled
abbrev pub GrantedIf : Bytes → Bool → List Event → Type 0
GrantedIf url b log = b ≡ true → is_granted url log ≡ true

pub asked-is_granted :
    (url : Bytes) (b : Bool) (log : List Event) → GrantedIf url b (asked url b ∷ log)
asked-is_granted url b log h = ground (arith, bytes_eq_refl url)

pub take_outcome-granted :
    (p : Setting) (url : Bytes) (o : Option Outcome) (s : State)
    → Holds (GrantedIf url) (take_outcome p url o s).0 (take_outcome p url o s).1.log
take_outcome-granted p url none s = tt
take_outcome-granted p url (some o) s = asked-is_granted url o.should_crawl s.log

pub take_answers-granted :
    (p : Setting) (url : Bytes) (a : Result Answers) (s : State)
    → Holds (GrantedIf url) (take_answers p url a s).0 (take_answers p url a s).1.log
take_answers-granted p url (thrown e) s = tt
take_answers-granted p url (ok a) s =
    take_outcome-granted p url (should_crawl p.replace_all p.junk s.timeouts a url)
      (note_rules (rules_request p.junk s.timeouts a url) s)

pub ask-Ends :
    (n : ℕ) (w : World) (p : Setting) (url : Bytes) (s : State)
    → all_granted s.log ≡ true
    → count_requests s.log ≤ n
    → Ends n (GrantedIf url) (ask w p url) s
unfolding ask
ask-Ends n w p url s a b =
    let e = quiet-Ends_any n (ask w p url) (ask-Quiet w p url) s a b in
    record {
      granted = e.granted;
      few = e.few;
      holds = take_answers-granted p url (w.answers_of s.time url) s;
    }
