-- ===== src/Analyze/Indexer/Sound.antt =====
-- internal/analyze/indexer.go: what IndexLayer promises of the index that it returns.
use layerlens.Analyze.Indexer.Sealed.{
  empty-IsIndexing, IsRead, Gathers, IsVerified, all_warnings_bound, IsSealed, sealed-IsSealed,
}
use mathlib.Core.Path.{subst}
use layerlens.Base.{
  Gives-both, Gives-ok, Gives-intro, take, take-append-drop, Option-cases, Option, none, some, ◌≡◌,
  refl, ap, inl, inr, ℕ, ◌+◌, ◌≤◌, Bytes, length, ok, Gives, Gives-ok, Gives-intro, Gives->>,
  Gives->>=,
}
use layerlens.Domain.Digest.{digest_from_bytes}
use layerlens.Domain.Entry.{LayerIndex}
use layerlens.Analyze.Indexer.{Warning, max_warnings, Stream, TarRead}
use layerlens.Analyze.Indexer.Media.{Readers, decompressor}
use layerlens.Analyze.Indexer.Covers.{Covers, add_all-Covers}
use layerlens.Analyze.Indexer.Accepts.{IsIndexing, IsCapped}
use layerlens.Analyze.Indexer.Adds.{add_all-IsIndexing}
use layerlens.Analyze.Indexer.Finish.{listed_count}
use layerlens.Analyze.Indexer.Layer.{
  drain, LayerSource, max_entries_of, empty_state, reader_of, declared_diff_id, add_all,
  finish_index, sealed, index_layer,
}

module _ (sha256 : Bytes → Bytes) (render : Warning → Bytes) (render_suppressed : ℕ → Bytes)
    (to_lower trim_space : Bytes → Bytes) (readers : Readers) (read_tar : Stream → TarRead) where
  -- The stream behind a reader, read to its end without an error.
  abbrev pub IsStreamOf : LayerSource → Stream → Type 0
  IsStreamOf src stream =
      (r : Stream) × (src.reader ≡ some r)
      × (decompressor to_lower trim_space readers src.media_type r ≡ ok stream)
      × (stream.fails ≡ none)

  abbrev IsIndexed : LayerSource → LayerIndex → Type 0
  IsIndexed src idx =
      (stream : Stream) × IsStreamOf src stream
      × IsSealed sha256 render render_suppressed
          (Gathers sha256 (read_tar stream).members (max_entries_of src.max_entries)) src.diff_id
          (digest_from_bytes (sha256 stream.bytes)) idx

  reader_of-some : (o : Option Stream) → Gives (λ r. o ≡ some r) (reader_of o)
  reader_of-some none = tt
  reader_of-some (some r) = refl

  -- Reading is complete: what archive/tar has read and what is left make up the stream.
  drain-bytes :
      (stream : Stream) (n : ℕ)
      → Gives
          (λ fed. (stream.fails ≡ none) × (fed ≡ stream.bytes))
          (drain stream n (take n stream.bytes))
  unfolding drain
  drain-bytes stream n = elim (Option-cases stream.fails) [
    | inl p ↦ rw (p, drain) (refl, take-append-drop n stream.bytes)
    | inr (e, p) ↦ rw (p, drain) tt
  ]

  index_layer-IsIndexed :
      (src : LayerSource)
      → Gives
          (IsIndexed src)
          (index_layer sha256 render render_suppressed to_lower trim_space readers read_tar src)
  unfolding index_layer
  index_layer-IsIndexed src =
      let cap = max_entries_of src.max_entries in
      Gives->>= (λ r. src.reader ≡ some r) (IsIndexed src) (reader_of src.reader) _
        (reader_of-some src.reader)
        (λ r b. Gives->> (IsIndexed src) (declared_diff_id src.diff_id) _ (λ _.
          let opened = decompressor to_lower trim_space readers src.media_type r in
          Gives->>= (λ stream. opened ≡ ok stream) (IsIndexed src) opened _
            (Gives-intro (λ stream. opened ≡ ok stream) opened (λ _ e. e))
            (λ stream o.
              let rs = (read_tar stream).members in
              let n = (read_tar stream).consumed in
              let O = IsRead sha256 rs in
              let S = Gathers sha256 rs cap in
              let gathered = add_all sha256 rs (empty_state cap) in
              Gives->>= S (IsIndexed src) gathered _
                (Gives-both (IsIndexing O cap) (Covers sha256 rs (empty_state cap)) gathered
                  (add_all-IsIndexing sha256 O cap rs (empty_state cap) (λ m i e f. (m, i, f))
                    (empty-IsIndexing O cap))
                  (add_all-Covers sha256 rs (empty_state cap)))
                (λ s h.
                  Gives->>= (λ fed. (stream.fails ≡ none) × (fed ≡ stream.bytes)) (IsIndexed src)
                    (drain stream n (take n stream.bytes)) _ (drain-bytes stream n)
                    (λ fed f.
                      let digest = digest_from_bytes (sha256 fed) in
                      let end = sealed sha256 render render_suppressed src.diff_id digest s in
                      Gives-intro (IsIndexed src) end (λ idx e.
                        let q =
                          Gives-ok (IsSealed sha256 render render_suppressed S src.diff_id digest)
                            end idx
                            (sealed-IsSealed sha256 render render_suppressed S src.diff_id digest s
                              h)
                            e in
                        (
                          stream,
                          (r, b, o, f.0),
                          subst
                              (λ c.
                                IsSealed sha256 render render_suppressed S src.diff_id
                                  (digest_from_bytes (sha256 c)) idx)
                              f.1 q,
                        )))))))

  indexed :
      (src : LayerSource) (idx : LayerIndex)
      → index_layer sha256 render render_suppressed to_lower trim_space readers read_tar src
        ≡ ok idx
      → IsIndexed src idx
  indexed src idx e =
      Gives-ok (IsIndexed src)
        (index_layer sha256 render render_suppressed to_lower trim_space readers read_tar src) idx
        (index_layer-IsIndexed src) e

  -- An index that IndexLayer returns has at most as many entries as the cap, where the cap is
  -- positive, and at most one warning above the limit.
  pub index_layer-IsCapped :
      (src : LayerSource) (idx : LayerIndex)
      → index_layer sha256 render render_suppressed to_lower trim_space readers read_tar src
        ≡ ok idx
      → IsCapped (max_entries_of src.max_entries) (length idx.entries)
        × (length idx.warnings ≤ max_warnings + 1)
  unfolding finish_index
  index_layer-IsCapped src idx e =
      let (stream, _, (s, h, same, _)) = indexed src idx e in
      rw same (
        listed_count (IsRead sha256 (read_tar stream).members) (max_entries_of src.max_entries) s
            h.0,
        all_warnings_bound sha256 render render_suppressed s h.0.warned,
      )

  -- The diff_id of an index that IndexLayer returns is the digest of all the bytes of the
  -- uncompressed stream, also of those behind what archive/tar reads, and the stream has ended
  -- without an error; it is the declared diff_id, where the source declares one.
  pub index_layer-IsVerified :
      (src : LayerSource) (idx : LayerIndex)
      → index_layer sha256 render render_suppressed to_lower trim_space readers read_tar src
        ≡ ok idx
      → (stream : Stream) × IsStreamOf src stream
        × (idx.diff_id ≡ digest_from_bytes (sha256 stream.bytes))
        × IsVerified src.diff_id idx.diff_id
  unfolding finish_index
  index_layer-IsVerified src idx e =
      let (stream, of, (s, h, same, v)) = indexed src idx e in
      (stream, of, ap (λ (i : LayerIndex). i.diff_id) same, rw same v)
