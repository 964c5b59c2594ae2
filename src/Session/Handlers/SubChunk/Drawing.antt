-- ===== src/Session/Handlers/SubChunk/Drawing.antt =====
-- What becomes of one entry of a packet (session/handler_sub_chunk.go).
use gobds.Base.{
  ℕ, ◌<◌, ◌≡◌, refl, sym, ◌∙◌, subst, Bool, true, false, not, ◌&&◌, Option, none, some, List, [],
  ◌∷◌, ◌++◌, length, ◌==◌, nat_eq, leb, Bool-cases, inl, inr, arith, if◌then◌else◌, if_on_true,
  if_on_false, not-true, ==→≡,
}
use gobds.Base.Int.{ℤ, ◌+ℤ◌, floor_div, int_eq}
use gobds.Area.{ChunkPos, wrap32}
use gobds.Claim.Model.{PlayerClaim}
use gobds.Claim.Factory.{Factory}
use gobds.Policy.{ClaimActor}
use gobds.Session.Handlers.SubChunk.Packet.{
  Codec, SetsOne, Decoding, panics, fails, decoded, SubChunkEntry, SubChunkPacket,
}
use gobds.Session.Claims.{single_claim_at, match_claims}
use gobds.Session.Handlers.SubChunk.Columns.{denies, render_denied, Edit}
use gobds.Session.Handlers.SubChunk.Entries.{
  edited, rewritten, with_decoded, with_payload, apply_claim_deny_blocks,
}
use gobds.Session.Handlers.SubChunk.Editing.{
  deny_rows-sets, deny_rows-unmodified, deny_rows-modified,
}

-- Where no claim is offered no column is denied.
denies-nil :
    (codec : Codec) (chunk : ChunkPos) (found : List PlayerClaim) (deny_id : ℕ) (actor : ClaimActor)
    (x z : ℕ)
    → length found ≡ 0
    → denies codec chunk found deny_id actor x z ≡ false
unfolding denies single_claim_at match_claims render_denied
denies-nil codec chunk [] deny_id actor x z h = refl
denies-nil codec chunk (c ∷ cs) deny_id actor x z h = absurd (omega arith)

module _ (codec : Codec) where
  -- A sub-chunk to draw on: what was decoded, with its index and the bytes that follow.
  abbrev pub Target : Type 0
  Target = codec.Section × ℕ × List ℕ

  abbrev pub target_of_decoding : ℤ × ℤ → Decoding codec.Section → Option Target
  target_of_decoding range panics = none
  target_of_decoding range fails = none
  target_of_decoding range (decoded section index rest) =
      if leb (codec.section_count range) index then none else some (section, index, rest)

  abbrev pub target_of_payload : ℤ × ℤ → Option (List ℕ) → Option Target
  target_of_payload range none = none
  target_of_payload range (some bytes) = target_of_decoding range (codec.decode range bytes)

  -- The entry lies in the lowest section of its column.
  abbrev pub is_lowest : SubChunkPacket → SubChunkEntry → ℤ × ℤ → Bool
  is_lowest packet entry range =
      wrap32 (packet.position.y +ℤ entry.offset_y) == wrap32 (floor_div range.0 16)

  abbrev pub target : SubChunkPacket → SubChunkEntry → ℤ × ℤ → Option Target
  target packet entry range =
      if is_lowest packet entry range then target_of_payload range entry.raw_payload else none

  -- The target with deny blocks on the floor of the closed columns, if there are any, and nowhere
  -- else.
  pub data Redraws (deny_id : ℕ) (closed : ℕ → ℕ → Bool) (range : ℤ × ℤ) (entry : SubChunkEntry)
      (t : Target) (entry' : SubChunkEntry) : Type 0 where
    untouched :
        entry' ≡ entry
        → ((x z : ℕ) → x < 16 → z < 16 → closed x z ≡ false)
        → Redraws deny_id closed range entry t entry'
    redrawn :
        (section : codec.Section) (x0 z0 : ℕ)
        → x0 < 16
        → z0 < 16
        → closed x0 z0 ≡ true
        → entry' ≡ record entry { raw_payload = some (codec.encode range t.1 section ++ t.2) }
        → ((x y z layer : ℕ)
            → x < 16
            → z < 16
            → codec.block_at x y z layer section ≡ (
                if closed x z && (y == 0 && layer == 0)
                then deny_id
                else codec.block_at x y z layer t.0))
        → Redraws deny_id closed range entry t entry'

  -- An entry without a target stays as it is.
  abbrev pub Draws :
      ℕ → (ℕ → ℕ → Bool) → ℤ × ℤ → SubChunkEntry → Option Target → SubChunkEntry → Type 0
  Draws deny_id closed range entry none entry' = entry' ≡ entry
  Draws deny_id closed range entry (some t) entry' = Redraws deny_id closed range entry t entry'

  -- The handler decodes the bytes of the lowest section of a column if the index offers claims there.
  abbrev pub is_decoded : SubChunkPacket → SubChunkEntry → ℤ × ℤ → List PlayerClaim → Bool
  is_decoded packet entry range found = is_lowest packet entry range && not (length found == 0)

  -- The bytes of the entry make the decoder panic.
  abbrev pub Panics : ℤ × ℤ → SubChunkEntry → Type 0
  Panics range entry =
      (bytes : List ℕ) × (entry.raw_payload ≡ some bytes) × (codec.decode range bytes ≡ panics)

  -- Nothing is given if the entry is broken, and only then; else the entry is drawn.
  abbrev pub Answers :
      Type 0
      → ℕ
      → (ℕ → ℕ → Bool)
      → ℤ × ℤ
      → SubChunkEntry
      → Option Target
      → Option SubChunkEntry
      → Type 0
  Answers Broken deny_id closed range entry t none = Broken
  Answers Broken deny_id closed range entry t (some entry') =
      (¬ Broken) × Draws deny_id closed range entry t entry'

  Answers-map :
      (P Q : Type 0) (deny_id : ℕ) (closed : ℕ → ℕ → Bool) (range : ℤ × ℤ) (entry : SubChunkEntry)
      (t : Option Target) (o : Option SubChunkEntry)
      → (P → Q)
      → (Q → P)
      → Answers P deny_id closed range entry t o
      → Answers Q deny_id closed range entry t o
  Answers-map P Q deny_id closed range entry t none f g h = f h
  Answers-map P Q deny_id closed range entry t (some entry') f g (whole, h) = (λ q. whole (g q), h)

  module _ (sets_one : SetsOne codec) (chunk : ChunkPos) (range : ℤ × ℤ) (found : List PlayerClaim)
      (deny_id : ℕ) (actor : ClaimActor) (entry : SubChunkEntry) (closed : ℕ → ℕ → Bool)
      (agrees : (x z : ℕ)
        → x < 16
        → z < 16
        → denies codec chunk found deny_id actor x z ≡ closed x z) where
    rewritten-Redraws :
        (section : codec.Section) (index : ℕ) (rest : List ℕ) (claims : Option Factory)
        → Redraws deny_id closed range entry
            (section, index, rest)
            (rewritten codec range index rest entry
              (edited codec chunk found deny_id actor section claims)).1
    rewritten-Redraws section index rest claims =
        let e = edited codec chunk found deny_id actor section claims in
        let start : Edit codec.Section = record {
          section = section;
          modified = false;
          claims = claims;
        } in
        let Goal : Option Factory × SubChunkEntry → Type 0 =
          λ r. Redraws deny_id closed range entry (section, index, rest) r.1 in
        elim (Bool-cases e.modified) [
          | inl changed ↦ if_on_false Goal _ (not-true changed) (
              let (x0, z0, hx0, hz0, d) =
                deny_rows-modified codec sets_one chunk found deny_id actor start refl changed in
              redrawn e.section x0 z0 hx0 hz0 (sym (agrees x0 z0 hx0 hz0) ∙ d) refl
                (λ x y z layer hx hz.
                  subst
                    (λ b. codec.block_at x y z layer e.section ≡ (
                      if b && (y == 0 && layer == 0)
                      then deny_id
                      else codec.block_at x y z layer section))
                    (agrees x z hx hz)
                    (deny_rows-sets codec sets_one chunk found deny_id actor start x y z layer hx
                      hz)))
          | inr same ↦ if_on_true Goal _ (let n : not e.modified ≡ true = rw same refl in n) (
              untouched refl (λ x z hx hz.
                sym (agrees x z hx hz)
                ∙ deny_rows-unmodified codec sets_one chunk found deny_id actor start same x z hx
                    hz))
        ]

    Draws-unchanged :
        (o : Option Target)
        → ((x z : ℕ) → x < 16 → z < 16 → closed x z ≡ false)
        → Draws deny_id closed range entry o entry
    Draws-unchanged none h = refl
    Draws-unchanged (some t) h = untouched refl h

    with_decoded-Answers :
        (bytes : List ℕ) (claims : Option Factory) (d : Decoding codec.Section)
        → entry.raw_payload ≡ some bytes
        → codec.decode range bytes ≡ d
        → Answers
            (Panics range entry)
            deny_id
            closed
            range
            entry
            (target_of_decoding range d)
            (with_decoded codec chunk range found deny_id actor entry claims d).1
    with_decoded-Answers bytes claims panics e f = (bytes, e, f)
    with_decoded-Answers bytes claims fails e f = (λ (b, g, h). absurd (cc), refl)
    with_decoded-Answers bytes claims (decoded section index rest) e f =
        let whole : ¬ (Panics range entry) = λ (b, g, h). absurd (cc) in
        elim (Bool-cases (leb (codec.section_count range) index)) [
          | inl beyond ↦ rw beyond (whole, refl)
          | inr within ↦ rw within (whole, rewritten-Redraws section index rest _)
        ]

    with_payload-Answers :
        (claims : Option Factory) (o : Option (List ℕ))
        → entry.raw_payload ≡ o
        → Answers
            (Panics range entry)
            deny_id
            closed
            range
            entry
            (target_of_payload range o)
            (with_payload codec chunk range found deny_id actor entry claims o).1
    with_payload-Answers claims none e = (λ (b, g, h). absurd (cc), refl)
    with_payload-Answers claims (some bytes) e =
        with_decoded-Answers bytes claims (codec.decode range bytes) e refl

    pub apply-Answers :
        (packet : SubChunkPacket) (claims : Option Factory)
        → Answers
            ((is_decoded packet entry range found ≡ true) × Panics range entry)
            deny_id
            closed
            range
            entry
            (target packet entry range)
            (apply_claim_deny_blocks codec packet entry chunk range found deny_id actor claims).1
    unfolding apply_claim_deny_blocks
    apply-Answers packet claims = elim (Bool-cases (is_lowest packet entry range)) [
      | inr higher ↦ rw higher (λ (k, b). absurd (cc), refl)
      | inl lowest ↦ elim (Bool-cases (length found == 0)) [
        | inl empty ↦
            rw (lowest, empty)
              (
                λ (k, b). absurd (cc),
                Draws-unchanged (target_of_payload range entry.raw_payload) (λ x z hx hz.
                    sym (agrees x z hx hz)
                    ∙ denies-nil codec chunk found deny_id actor x z (==→≡ (length found) 0 empty)),
              )
        | inr some_found ↦
            rw (lowest, some_found)
              (Answers-map (Panics range entry) _ deny_id closed range entry _ _ (λ k. (refl, k))
                (λ (k, b). b) (with_payload-Answers claims entry.raw_payload refl))
      ]
    ]
