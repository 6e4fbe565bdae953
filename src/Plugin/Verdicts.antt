-- ===== src/Plugin/Verdicts.antt =====
-- src/plugin/: the search for a keyword finds its occurrences, and the verdicts follow the lists.
use lumen_mq.Prelude.{
  ℕ, zero, suc, ◌-◌, ◌<◌, ◌≡◌, ◌↔◌, ◌⊎◌, inl, inr, refl, sym, subst, ap, Bool, true, false, List,
  [], ◌∷◌, ◌++◌, Str, Bytes, if◌then◌else◌, ltb, length, length-append, take, drop, take-append,
  is_empty, In, arith, Bool-cases, ◌==◌, nat_key, list_key, list_same_iff,
}
use lumen_mq.Prelude.Result.{ok}
use lumen_mq.Codec.Packet.{Publish}
use lumen_mq.Broker.Topic.{topic_matches_filter}
use lumen_mq.Plugin.TopicAcl.{
  Verdict, allowed, denied_by_blacklist, denied_by_whitelist, any_filter, decide,
}
use lumen_mq.Plugin.PayloadFilter.{
  any_window, contains_subslice, any_keyword, check_payload, no_rules,
}
use lumen_mq.Plugin.Guard.{PluginGuard, plugin_publish}

-- The needle stands in the text, with some text before it and some after.
abbrev pub Occurs : Bytes → Bytes → Type 0
Occurs needle text = (before : Bytes) × (after : Bytes) × (text ≡ before ++ (needle ++ after))

take-drop_append : (n : ℕ) (xs : Bytes) → take n xs ++ drop n xs ≡ xs
take-drop_append zero xs = refl
take-drop_append (suc n) [] = refl
take-drop_append (suc n) (x ∷ xs) = ap (◌∷◌ x) (take-drop_append n xs)

later_lem : (needle text : Bytes) (b : ℕ) → Occurs needle text → Occurs needle (b ∷ text)
later_lem needle text b (before, after, e) = (b ∷ before, after, ap (◌∷◌ b) e)

any_window-Occurs :
    (left : ℕ) (text needle : Bytes) → any_window left text needle ≡ true → Occurs needle text
unfolding any_window
any_window-Occurs zero text needle h = cc
any_window-Occurs (suc left) [] needle h = cc
any_window-Occurs (suc left) (b ∷ text) needle h =
    elim (Bool-cases (take (length needle) (b ∷ text) == needle)) [
      | inl here ↦
          let e = (list_same_iff (take (length needle) (b ∷ text)) needle).0 here in
          (
            [],
            drop (length needle) (b ∷ text),
            subst (λ (w : Bytes). b ∷ text ≡ w ++ drop (length needle) (b ∷ text)) e
                (sym (take-drop_append (length needle) (b ∷ text))),
          )
      | inr other ↦
          later_lem needle text b (any_window-Occurs left text needle (ground (arith, other, h)))
    ]

-- The window at which the needle stands is looked at.
Occurs-any_window :
    (before after : Bytes) (n : ℕ) (needle : Bytes) (left : ℕ)
    → length before < left
    → any_window left (before ++ ((n ∷ needle) ++ after)) (n ∷ needle) ≡ true
unfolding any_window
Occurs-any_window before after n needle zero h = absurd (omega (arith, h))
Occurs-any_window [] after n needle (suc left) h =
    let e =
      (list_same_iff (take (length (n ∷ needle)) ((n ∷ needle) ++ after)) (n ∷ needle)).1
        (take-append (n ∷ needle) after) in
    ground (arith, e)
Occurs-any_window (b ∷ before) after n needle (suc left) h =
    ground (arith, Occurs-any_window before after n needle left (omega (arith, h)))

-- `contains_subslice` finds a needle exactly where it stands in the text.
pub contains_subslice-Occurs :
    (text needle : Bytes) → (contains_subslice text needle ≡ true) ↔ Occurs needle text
unfolding contains_subslice
contains_subslice-Occurs text [] = ((λ h. ([], text, refl)), λ h. refl)
contains_subslice-Occurs text (n ∷ needle) = (
  (λ h.
      any_window-Occurs (suc (length text - length (n ∷ needle))) text (n ∷ needle)
        (ground (arith, h))),
  λ (before, after, e).
      let size = ap length e in
      let size' = length-append before ((n ∷ needle) ++ after) in
      let size'' = length-append (n ∷ needle) after in
      let found =
        Occurs-any_window before after n needle (suc (length text - length (n ∷ needle)))
          (omega (arith, size, size', size'')) in
      let small : ltb (length text) (length (n ∷ needle)) ≡ false =
        ground (arith, size, size', size'') in
      rw small (
        subst
          (λ (t : Bytes).
            any_window (suc (length text - length (n ∷ needle))) t (n ∷ needle) ≡ true)
          (sym e) found),
)

-- A filter of the list matches the topic.
abbrev pub Hits : Str → List Str → Type 0
Hits topic filters = (f : Str) × In f filters × (topic_matches_filter topic f ≡ true)

-- A keyword of the list stands in the payload.
abbrev pub HasKeyword : Bytes → List Bytes → Type 0
HasKeyword payload keywords = (kw : Bytes) × In kw keywords × Occurs kw payload

any_filter-Hits :
    (topic : Str) (filters : List Str) → (any_filter topic filters ≡ true) ↔ Hits topic filters
unfolding any_filter
any_filter-Hits topic [] = ((λ h. cc), λ (f, k, m). absurd k)
any_filter-Hits topic (g ∷ filters) =
    let later = any_filter-Hits topic filters in
    elim (Bool-cases (topic_matches_filter topic g)) [
      | inl e ↦ rw e ((λ h. (g, inl refl, e)), λ _. refl)
      | inr e ↦ rw e (
        (λ h. let (f, k, m) = later.0 h in (f, inr k, m)),
        λ (f, k, m). elim k [
          | inl s ↦ absurd (ground (arith, s, m, e))
          | inr r ↦ later.1 (f, r, m)
        ],
      )
    ]

any_keyword-HasKeyword :
    (payload : Bytes) (keywords : List Bytes)
    → (any_keyword payload keywords ≡ true) ↔ HasKeyword payload keywords
unfolding any_keyword
any_keyword-HasKeyword payload [] = ((λ h. cc), λ (f, k, m). absurd k)
any_keyword-HasKeyword payload (g ∷ keywords) =
    let later = any_keyword-HasKeyword payload keywords in
    let here = contains_subslice-Occurs payload g in
    elim (Bool-cases (contains_subslice payload g)) [
      | inl e ↦ rw e ((λ h. (g, inl refl, here.0 e)), λ _. refl)
      | inr e ↦ rw e (
        (λ h. let (kw, k, m) = later.0 h in (kw, inr k, m)),
        λ (kw, k, m). elim k [
          | inl s ↦ absurd (ground (arith, e, here.1 (subst (λ (w : Bytes). Occurs w payload) s m)))
          | inr r ↦ later.1 (kw, r, m)
        ],
      )
    ]

-- The shape of both checks: the black list first, then the white list where it has entries.
verdict_lem :
    (black white : Bool) (list : List Bytes) (B W : Type 0)
    → ((black ≡ true) ↔ B)
    → ((white ≡ true) ↔ W)
    → ((if black
          then denied_by_blacklist
          else if is_empty list
          then allowed
          else if white
          then allowed
          else denied_by_whitelist)
        ≡ allowed)
      ↔ ((¬ B) × ((list ≡ []) ⊎ W))
verdict_lem true white list B W b w = ((λ h. cc), λ (out, k). absurd (out (b.0 refl)))
verdict_lem false white [] B W b w = ((λ h. ((λ k. absurd (cc (b.1 k))), inl refl)), λ _. refl)
verdict_lem false true (x ∷ list) B W b w =
    ((λ h. ((λ k. absurd (cc (b.1 k))), inr (w.0 refl))), λ _. refl)
verdict_lem false false (x ∷ list) B W b w =
    ((λ h. cc), λ (out, k). elim k [ inl e ↦ absurd (cc e) | inr v ↦ absurd (cc (w.1 v)) ])

decide-Hits :
    (topic : Str) (black white : List Str)
    → (decide topic black white ≡ allowed)
      ↔ ((¬ Hits topic black) × ((white ≡ []) ⊎ Hits topic white))
unfolding decide
decide-Hits topic black white =
    verdict_lem (any_filter topic black) (any_filter topic white) white (Hits topic black)
      (Hits topic white) (any_filter-Hits topic black) (any_filter-Hits topic white)

check_payload-HasKeyword :
    (payload : Bytes) (g : PluginGuard)
    → (check_payload payload g.policy.payload_filter ≡ allowed) ↔ (
        (¬ HasKeyword payload g.policy.payload_filter.blacklist)
        × ((g.policy.payload_filter.whitelist ≡ [])
            ⊎ HasKeyword payload g.policy.payload_filter.whitelist))
unfolding check_payload
check_payload-HasKeyword payload g =
    let f = g.policy.payload_filter in
    verdict_lem (any_keyword payload f.blacklist) (any_keyword payload f.whitelist) f.whitelist
      (HasKeyword payload f.blacklist) (HasKeyword payload f.whitelist)
      (any_keyword-HasKeyword payload f.blacklist) (any_keyword-HasKeyword payload f.whitelist)

empty_or : (xs : List Bytes) → (xs ≡ []) ⊎ (is_empty xs ≡ false)
empty_or [] = inl refl
empty_or (x ∷ xs) = inr refl

-- Without any keyword the check is passed over, and would allow.
no_rules_lem :
    (payload : Bytes) (g : PluginGuard)
    → no_rules g.policy.payload_filter ≡ true
    → check_payload payload g.policy.payload_filter ≡ allowed
unfolding check_payload any_keyword
no_rules_lem payload g h = elim (empty_or g.policy.payload_filter.blacklist) [
  | inl b ↦ elim (empty_or g.policy.payload_filter.whitelist) [
    | inl w ↦ rw (b, w) refl
    | inr w ↦ absurd (ground (arith, w, h))
  ]
  | inr b ↦ absurd (ground (arith, b, h))
]

verdict_cases :
    (v : Verdict) → (v ≡ allowed) ⊎ ((v ≡ denied_by_blacklist) ⊎ (v ≡ denied_by_whitelist))
verdict_cases allowed = inl refl
verdict_cases denied_by_blacklist = inr (inl refl)
verdict_cases denied_by_whitelist = inr (inr refl)

both_checks :
    (p : Publish) (g : PluginGuard)
    → g.policy.enabled ≡ true
    → (plugin_publish p g ≡ ok tt) ↔ (
        (decide p.topic g.policy.topic_acl.publish_blacklist g.policy.topic_acl.publish_whitelist
          ≡ allowed)
        × (check_payload p.payload g.policy.payload_filter ≡ allowed))
unfolding plugin_publish
both_checks p g on = ground (
  arith,
  on,
  no_rules_lem p.payload g,
  verdict_cases
      (decide p.topic g.policy.topic_acl.publish_blacklist g.policy.topic_acl.publish_whitelist),
  verdict_cases (check_payload p.payload g.policy.payload_filter),
)

-- A policy that is on lets a publication in exactly if no filter of the topics' black list matches
-- its topic, the white list has no entries or one that matches, no keyword of the payloads' black
-- list stands in its payload, and the white list has no entries or one that stands there.
pub plugin_publish_allows :
    (p : Publish) (g : PluginGuard)
    → g.policy.enabled ≡ true
    → (plugin_publish p g ≡ ok tt) ↔ (
        ((¬ Hits p.topic g.policy.topic_acl.publish_blacklist)
          × ((g.policy.topic_acl.publish_whitelist ≡ [])
              ⊎ Hits p.topic g.policy.topic_acl.publish_whitelist))
        × ((¬ HasKeyword p.payload g.policy.payload_filter.blacklist)
            × ((g.policy.payload_filter.whitelist ≡ [])
                ⊎ HasKeyword p.payload g.policy.payload_filter.whitelist)))
unfolding plugin_publish
plugin_publish_allows p g on =
    let acl = g.policy.topic_acl in
    let topics = decide-Hits p.topic acl.publish_blacklist acl.publish_whitelist in
    let words = check_payload-HasKeyword p.payload g in
    let agree : (plugin_publish p g ≡ ok tt) ↔ (
        (decide p.topic acl.publish_blacklist acl.publish_whitelist ≡ allowed)
        × (check_payload p.payload g.policy.payload_filter ≡ allowed)) =
      both_checks p g on in
    (
      (λ h. let (a, b) = agree.0 h in (topics.0 a, words.0 b)),
      λ (a, b). agree.1 (topics.1 a, words.1 b),
    )
