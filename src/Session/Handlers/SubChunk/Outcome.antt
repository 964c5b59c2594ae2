-- ===== src/Session/Handlers/SubChunk/Outcome.antt =====
-- What becomes of the entries of a packet (session/handler_sub_chunk.go).
use gobds.Base.{
  ℕ, ◌≡◌, refl, sym, subst, String, Bool, true, false, not, Option, none, some, List, [], ◌∷◌, ◌++◌,
  Bool-cases, ◌⊎◌, inl, inr, if_on_true, if_on_false, not-true, All,
}
use gobds.Base.Int.{ℤ, int_eq}
use gobds.Claim.Factory.{Factory}
use gobds.Claim.Factory.Refresh.{IsSound, OnSnapshot}
use gobds.Session.State.{Platform, Session}
use gobds.Session.Handlers.SubChunk.Packet.{Codec, SetsOne, SubChunkEntry, SubChunkPacket}
use gobds.Session.Handlers.SubChunk.Entries.{
  Context, chunk_pos, outside_chunk, is_open, in_dimension, listed, and_then,
  filter_sub_chunk_entry, filter_entries, deny_block_runtime_id, actor_of, found_at,
}
use gobds.Session.Handlers.SubChunk.Alignment.{InReach}
use gobds.Session.Handlers.SubChunk.Rendering.{is_closed_in, denies-is_closed_in}
use gobds.Session.Handlers.SubChunk.Drawing.{
  Draws, target, is_decoded, Panics, Answers, apply-Answers,
}

-- Some item of a list has a property.
abbrev pub Any : {A : Type 0} → (A → Type 0) → List A → Type 0
Any P [] = ⊥
Any P (x ∷ xs) = P x ⊎ Any P xs

module _ (codec : Codec) (platform : Platform) (s : Session) (packet : SubChunkPacket)
    (context : Context) where
  abbrev deny_id : ℕ
  deny_id = deny_block_runtime_id platform s.hashed_ids

  -- What is drawn on an entry, if it is open, in a dimension with a name and a range.
  abbrev pub Drawn : Bool → Option (ℤ × ℤ) → Option String → SubChunkEntry → SubChunkEntry → Type 0
  Drawn false range dimension e e' = e' ≡ e
  Drawn true none dimension e e' = e' ≡ e
  Drawn true (some range) none e e' = e' ≡ e
  Drawn true (some range) (some dimension) e e' =
      Draws codec (deny_block_runtime_id platform s.hashed_ids)
        (is_closed_in context.snapshot dimension (actor_of codec platform s packet context)
          (chunk_pos packet e))
        range e (target codec packet e range) e'

  abbrev pub Shown : Option (ℤ × ℤ) → SubChunkEntry → SubChunkEntry → Type 0
  Shown range e e' = Drawn (is_open codec platform s packet context e) range context.dimension e e'

  -- An entry is decoded if it lies within the border, is open, in a dimension with a range and a name,
  -- and is the lowest section of a column where the index offers claims; and its bytes then make the
  -- decoder panic.
  abbrev pub BreaksIn : Option (ℤ × ℤ) → Option String → SubChunkEntry → Type 0
  BreaksIn none dimension e = ⊥
  BreaksIn (some range) none e = ⊥
  BreaksIn (some range) (some dimension) e =
      (is_decoded codec packet e range
          (found_at codec platform s packet context dimension (chunk_pos packet e))
        ≡ true)
      × Panics codec range e

  abbrev pub BreaksDecoder : Option (ℤ × ℤ) → SubChunkEntry → Type 0
  BreaksDecoder range e =
      (outside_chunk s.border (chunk_pos packet e) ≡ false)
      × (is_open codec platform s packet context e ≡ true)
      × BreaksIn range context.dimension e

  -- The entries outside the border are left out, and the others are drawn on, in their order.
  pub data Redrawn (range : Option (ℤ × ℤ)) : List SubChunkEntry → List SubChunkEntry → Type 0 where
    done : Redrawn range [] []
    dropped :
        {e : SubChunkEntry} {es out : List SubChunkEntry}
        → outside_chunk s.border (chunk_pos packet e) ≡ true
        → Redrawn range es out
        → Redrawn range (e ∷ es) out
    shown :
        {e e' : SubChunkEntry} {es out : List SubChunkEntry}
        → outside_chunk s.border (chunk_pos packet e) ≡ false
        → Shown range e e'
        → Redrawn range es out
        → Redrawn range (e ∷ es) (e' ∷ out)

  abbrev pub IsNear : SubChunkEntry → Type 0
  IsNear e = InReach (chunk_pos packet e).x × InReach (chunk_pos packet e).z

  abbrev Placed : Option (ℤ × ℤ) → SubChunkEntry → List SubChunkEntry → Type 0
  Placed range e out =
      ((outside_chunk s.border (chunk_pos packet e) ≡ true) × (out ≡ []))
      ⊎ ((outside_chunk s.border (chunk_pos packet e) ≡ false)
          × (e' : SubChunkEntry) × (out ≡ e' ∷ [])
          × Shown range e e')

  abbrev EntryResult : Option (ℤ × ℤ) → SubChunkEntry → Option (List SubChunkEntry) → Type 0
  EntryResult range e none = BreaksDecoder range e
  EntryResult range e (some out) = (¬ BreaksDecoder range e) × Placed range e out

  abbrev pub Result : Option (ℤ × ℤ) → List SubChunkEntry → Option (List SubChunkEntry) → Type 0
  Result range es none = Any (BreaksDecoder range) es
  Result range es (some out) = (¬ Any (BreaksDecoder range) es) × Redrawn range es out

  module _ (sets_one : SetsOne codec)
      (sound : OnSnapshot (IsSound platform.wild) context.snapshot) where
    abbrev Settled :
        Bool → Option (ℤ × ℤ) → Option String → SubChunkEntry → Option SubChunkEntry → Type 0
    Settled open_one range dimension e none = BreaksIn range dimension e
    Settled open_one range dimension e (some e') =
        (¬ BreaksIn range dimension e) × Drawn open_one range dimension e e'

    Settled-of-Answers :
        (range : ℤ × ℤ) (dimension : String) (e : SubChunkEntry) (o : Option SubChunkEntry)
        → Answers codec
            (BreaksIn (some range) (some dimension) e)
            (deny_block_runtime_id platform s.hashed_ids)
            (is_closed_in context.snapshot dimension
              (actor_of codec platform s packet context)
              (chunk_pos packet e))
            range
            e
            (target codec packet e range)
            o
        → Settled true (some range) (some dimension) e o
    Settled-of-Answers range dimension e none h = h
    Settled-of-Answers range dimension e (some e') h = h

    in_dimension-Settled :
        (range : Option (ℤ × ℤ)) (dimension : Option String) (e : SubChunkEntry)
        (claims : Option Factory)
        → IsNear e
        → Settled true range dimension e
            (in_dimension codec platform s packet context e range dimension claims).1
    in_dimension-Settled none dimension e claims near = (λ b. b, refl)
    in_dimension-Settled (some range) none e claims near = (λ b. b, refl)
    in_dimension-Settled (some range) (some dimension) e claims near =
        let chunk = chunk_pos packet e in
        let actor = actor_of codec platform s packet context in
        let id = deny_block_runtime_id platform s.hashed_ids in
        Settled-of-Answers range dimension e _ (
          apply-Answers codec sets_one chunk range
            (found_at codec platform s packet context dimension chunk) id actor e
            (is_closed_in context.snapshot dimension actor chunk)
            (λ x z hx hz.
              denies-is_closed_in codec platform.wild context.snapshot dimension chunk id actor x z
                sound near.0 near.1 hx hz)
            packet _)

    listed-EntryResult :
        (range : Option (ℤ × ℤ)) (e : SubChunkEntry) (r : Option Factory × Option SubChunkEntry)
        → outside_chunk s.border (chunk_pos packet e) ≡ false
        → is_open codec platform s packet context e ≡ true
        → Settled true range context.dimension e r.1
        → EntryResult range e (listed codec platform s packet context r).1
    listed-EntryResult range e (claims, none) inside is_open_one h = (inside, is_open_one, h)
    listed-EntryResult range e (claims, some e') inside is_open_one (whole, h) =
        (λ (i, o, b). whole b, inr (inside, e', refl, rw is_open_one h))

    filter_sub_chunk_entry-Result :
        (range : Option (ℤ × ℤ)) (e : SubChunkEntry) (claims : Option Factory)
        → IsNear e
        → EntryResult range e
            (filter_sub_chunk_entry codec platform s packet context range e claims).1
    unfolding filter_sub_chunk_entry
    filter_sub_chunk_entry-Result range e claims near =
        let Goal : Option Factory × Option (List SubChunkEntry) → Type 0 =
          λ r. EntryResult range e r.1 in
        elim (Bool-cases (outside_chunk s.border (chunk_pos packet e))) [
          | inl out ↦ if_on_true Goal _ out (λ (i, o, b). absurd (cc), inl (out, refl))
          | inr inside ↦
              if_on_false Goal _ inside
                (elim (Bool-cases (is_open codec platform s packet context e)) [
                  | inl is_open_one ↦ if_on_false Goal _ (not-true is_open_one) (
                      listed-EntryResult range e _ inside is_open_one
                        (in_dimension-Settled range context.dimension e claims near))
                  | inr shut ↦
                      if_on_true Goal _
                        (let n : not (is_open codec platform s packet context e) ≡ true =
                            rw shut refl in
                          n)
                        (λ (i, o, b). absurd (cc), inr (inside, e, refl, rw shut refl))
                ])
        ]

    and_then-Result :
        (range : Option (ℤ × ℤ)) (e : SubChunkEntry) (es : List SubChunkEntry)
        (later : Option Factory → Option Factory × Option (List SubChunkEntry))
        (r : Option Factory × Option (List SubChunkEntry))
        → EntryResult range e r.1
        → ((claims : Option Factory) → Result range es (later claims).1)
        → Result range (e ∷ es) (and_then codec platform s packet context later r).1
    and_then-Result range e es later (claims, none) h k = inl h
    and_then-Result range e es later (claims, some out) (whole, h) k =
        joined h (later claims).1 (k claims)
      where
        neither : ¬ Any (BreaksDecoder range) es → ¬ Any (BreaksDecoder range) (e ∷ es)
        neither none_breaks (inl b) = whole b
        neither none_breaks (inr b) = none_breaks b

        joined :
            Placed range e out
            → (rest : Option (List SubChunkEntry)) → Result range es rest
            → Result range (e ∷ es) (elim rest [ none ↦ none | some more ↦ some (out ++ more) ])
        joined g none l = inr l
        joined (inl (outside, empty)) (some more) (n, l) = (
          neither n,
          subst (λ o. Redrawn range (e ∷ es) (o ++ more)) (sym empty) (dropped outside l),
        )
        joined (inr (inside, e', one, drawn)) (some more) (n, l) = (
          neither n,
          subst (λ o. Redrawn range (e ∷ es) (o ++ more)) (sym one) (shown inside drawn l),
        )

    pub filter_entries-Result :
        (range : Option (ℤ × ℤ)) (es : List SubChunkEntry) (claims : Option Factory)
        → All IsNear es
        → Result range es (filter_entries codec platform s packet context range es claims).1
    unfolding filter_entries
    filter_entries-Result range [] claims near = (λ b. b, done)
    filter_entries-Result range (e ∷ es) claims (near, nears) =
        and_then-Result range e es (filter_entries codec platform s packet context range es) _
          (filter_sub_chunk_entry-Result range e claims near)
          (λ c. filter_entries-Result range es c nears)
