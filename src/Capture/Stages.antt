-- ===== src/Capture/Stages.antt =====
-- capture/: what each node makes sure of.
use conversational_memory_sy.Prelude.{
  ℕ, suc, ap, ◌≤◌, ◌≡◌, refl, true, false, ◌==◌, Option, none, some, List, [], ◌∷◌, length, All,
  arith, Bool-cases, inl, inr, length-append, ==→eq,
}
use conversational_memory_sy.Prelude.Perms.{All-append}
use conversational_memory_sy.Prelude.Options.{◌>>=◌}
use conversational_memory_sy.Context.Text.{Text}
use conversational_memory_sy.Retrieve.Features.{Floats}
use conversational_memory_sy.Store.{Row, Session, is_null}
use conversational_memory_sy.Store.Memories.{Backend, Candidate}
use conversational_memory_sy.Capture.Pii.{pii_node, IsScrubbed, redact-IsScrubbed}
use conversational_memory_sy.Capture.Evaluate.{
  Entry, no_scores, clamp_or, heuristic_scores, score_one, score_all, apply_confidence_floor,
  confidence_or_zero,
}
use conversational_memory_sy.Capture.Embed.{attach, attach_all, dedup_candidates, annotate}
use conversational_memory_sy.Capture.Graph.{Services, Settings}

module _ {W E F : Type 0} (services : Services W E F) (settings : Settings W)
    (floats : Floats W) where
  open services use {complete, score, embed, width, presidio, lower}
  open settings use {max_candidates, confidence_floor, embedding_dim, heuristics}

  abbrev pub IsSure : Option W → Type 0
  IsSure none = ⊥
  IsSure (some confidence) = floats.le confidence_floor confidence ≡ true

  abbrev pub IsEmbedded : Option E → Type 0
  IsEmbedded none = ⊥
  IsEmbedded (some e) = width e ≡ embedding_dim

  -- what a new row holds: a scrubbed text, a vector of the expected width, enough confidence
  abbrev pub IsClean : Text → Option E → Option W → Type 0
  IsClean text embedding confidence =
      IsScrubbed presidio text × IsEmbedded embedding × IsSure confidence

  -- after the pii node, after the scores, and after the floor
  abbrev pub Scrubbed : Candidate W E → Type 0
  Scrubbed c = IsScrubbed presidio c.text

  abbrev pub Scored : Candidate W E → Type 0
  Scored c = IsScrubbed presidio c.text × (is_null c.confidence ≡ false)

  abbrev pub Kept : Candidate W E → Type 0
  Kept c = IsScrubbed presidio c.text × IsSure c.confidence

  abbrev pub Clean : Candidate W E → Type 0
  Clean c = IsClean c.text c.embedding c.confidence

  pub pii-Scrubbed : (cs : List (Candidate W E)) → All Scrubbed (pii_node presidio cs)
  unfolding pii_node
  pii-Scrubbed [] = tt
  pii-Scrubbed (c ∷ cs) = (redact-IsScrubbed presidio c.text, pii-Scrubbed cs)

  -- what the loop has scored: as many candidates as it was given, each of them scored
  abbrev pub AllScored : ℕ → Option (List (Candidate W E)) → Type 0
  AllScored n none = Unit
  AllScored n (some scored) = All Scored scored × (length scored ≡ n)

  scored-AllScored :
      (entry : Entry W) (c : Candidate W E) (n : ℕ) (rest : Option (List (Candidate W E)))
      → Scrubbed c
      → AllScored n rest
      → AllScored (suc n) (do
        first ← score_one floats heuristics lower entry c
        others ← rest
        some (first ∷ others))
  scored-AllScored entry c n rest h hs =
      let (importance, confidence) = heuristic_scores floats heuristics lower c in
      both (clamp_or floats entry.importance importance)
        (clamp_or floats entry.confidence confidence) rest hs
    where
      both :
          (importance confidence : Option W) (rest : Option (List (Candidate W E)))
          → AllScored n rest
          → AllScored (suc n) (do
            first ← (do
              i ← importance
              j ← confidence
              some (record c { importance = some i; confidence = some j }))
            others ← rest
            some (first ∷ others))
      both none confidence rest hs = tt
      both (some i) none rest hs = tt
      both (some i) (some j) none hs = tt
      both (some i) (some j) (some others) (hs, n) = (((h, refl), hs), ap suc n)

  pub score_all-AllScored :
      (entries : List (Entry W)) (cs : List (Candidate W E))
      → All Scrubbed cs
      → AllScored (length cs) (score_all floats heuristics lower entries cs)
  score_all-AllScored entries [] h = (tt, refl)
  score_all-AllScored [] (c ∷ cs) (h, hs) =
      scored-AllScored no_scores c (length cs) _ h (score_all-AllScored [] cs hs)
  score_all-AllScored (entry ∷ entries) (c ∷ cs) (h, hs) =
      scored-AllScored entry c (length cs) _ h (score_all-AllScored entries cs hs)

  sure :
      (confidence : Option W)
      → is_null confidence ≡ false
      → floats.le confidence_floor (confidence_or_zero floats confidence) ≡ true
      → IsSure confidence
  sure none there above = ground (arith, there)
  sure (some confidence) there above = above

  pub floor-Kept :
      (cs : List (Candidate W E))
      → All Scored cs
      → All Kept (apply_confidence_floor floats confidence_floor cs).0
        × (length (apply_confidence_floor floats confidence_floor cs).0 ≤ length cs)
  unfolding apply_confidence_floor
  floor-Kept [] h = (tt, omega arith)
  floor-Kept (c ∷ cs) ((clean, there), hs) =
      let (kept, short) = floor-Kept cs hs in
      elim (Bool-cases (floats.le confidence_floor (confidence_or_zero floats c.confidence))) [
        | inl above ↦
            rw (above) (((clean, sure c.confidence there above), kept), omega (arith, short))
        | inr below ↦ rw (below) (kept, omega (arith, short))
      ]

  attach-Clean :
      (answer : Option E) (c : Candidate W E)
      → Kept c
      → All Clean (attach width embedding_dim answer c)
        × (length (attach width embedding_dim answer c) ≤ 1)
  attach-Clean none c h = (tt, omega arith)
  attach-Clean (some e) c (clean, sure) = elim (Bool-cases (width e == 0)) [
    | inl empty ↦ rw (empty) (tt, omega arith)
    | inr full ↦ elim (Bool-cases (width e == embedding_dim)) [
      | inl fits ↦
          rw (full, fits) (((clean, ==→eq (width e) embedding_dim fits, sure), tt), omega arith)
      | inr odd ↦ rw (full, odd) (tt, omega arith)
    ]
  ]

  pub attach_all-Clean :
      (answers : List (Option E)) (cs : List (Candidate W E))
      → All Kept cs
      → All Clean (attach_all width embedding_dim answers cs)
        × (length (attach_all width embedding_dim answers cs) ≤ length cs)
  attach_all-Clean answers [] h = (tt, omega arith)
  attach_all-Clean [] (c ∷ cs) h = (tt, omega arith)
  attach_all-Clean (answer ∷ answers) (c ∷ cs) (h, hs) =
      let (here, one) = attach-Clean answer c h in
      let (rest, short) = attach_all-Clean answers cs hs in
      let first = attach width embedding_dim answer c in
      (
        All-append Clean first (attach_all width embedding_dim answers cs) here rest,
        omega (arith, one, short, length-append first (attach_all width embedding_dim answers cs)),
      )

  pub annotate-Clean :
      (backend : Backend W E) (s : Session) (rows : List (Row W E)) (cs : List (Candidate W E))
      → All Clean cs
      → All Clean (dedup_candidates backend s rows cs)
  unfolding dedup_candidates
  annotate-Clean backend s rows [] h = tt
  annotate-Clean backend s rows (c ∷ cs) (h, hs) =
      (annotate-one c.embedding h, annotate-Clean backend s rows cs hs)
    where
      annotate-one : (embedding : Option E) → Clean c → Clean (annotate backend s rows embedding c)
      annotate-one none h = h
      annotate-one (some e) h = h
