-- ===== src/ClValue/Maps.antt =====
-- Maps of values, written and read back.
use casper_js_sdk.Prelude.{
  ℕ, suc, ◌^◌, ◌<◌, ◌≡◌, refl, ap, sym, ◌∙◌, arith, List, [], ◌∷◌, ◌++◌, append_assoc, true, false,
  ok, ◌>>=◌,
}
use casper_js_sdk.Prelude.Words.{Bytes, le_bytes}
use casper_js_sdk.Ethers.{Ethers}
use casper_js_sdk.Ethers.Concat.{concat2}
use casper_js_sdk.ByteConverters.Numbers.{to_bytes_u32-le_bytes}
use casper_js_sdk.Numeric.{Parsed}
use casper_js_sdk.Numeric.Fixed.{u32_from_bytes-le_bytes}
use casper_js_sdk.Text.{Text, Decoder}
use casper_js_sdk.ClType.{ClType, map}
use casper_js_sdk.ClValue.Plain.{plain, plain_entries}
use casper_js_sdk.ClValue.Parser.{
  KeyTexts, is_dynamic, has_text, from_bytes_by_type, append_entry, read_entries,
}
use casper_js_sdk.ClValue.Readable.{NeedsBytes}
use casper_js_sdk.ClValue.{
  ClValue, Entries, end, entry, cl_map, entry_count, value_bytes, entries_bytes,
}
use casper_js_sdk.ClValue.Parts.{Reads, nonempty}

entry_count-plain : (es : Entries) → entry_count (plain_entries es) ≡ entry_count es
unfolding entry_count plain
entry_count-plain end = refl
entry_count-plain (entry k v es) = ap suc (entry_count-plain es)

module _ ⦃e : Ethers⦄ (d : Decoder) (texts : KeyTexts) where
  -- The entries, whose keys are not among the texts of the keys before.
  pub record ReadsEntries (t u : ClType) (index : List Text) (es : Entries) : Type 0 where
    pub parts : List Bytes
    pub written : entries_bytes es ≡ ok parts
    pub read :
        (rest : Bytes)
        → (es' : Entries) × (read_entries texts t u
              (from_bytes_by_type d texts t)
              (from_bytes_by_type d texts u)
              (entry_count es)
              index
              (e.concat parts ++ rest)
            ≡ ok (es', rest))
          × (plain_entries es' ≡ es)
          × (entries_bytes es' ≡ ok parts)

  pub end_ReadsEntries : (t u : ClType) (index : List Text) → ReadsEntries t u index end
  unfolding entries_bytes entry_count read_entries plain
  end_ReadsEntries t u index = record {
    parts = [];
    written = refl;
    read = λ rest. (end, rw (e.concat-nil), refl, refl);
  }

  append_entry_new :
      (t u : ClType) (key : ClValue) (text : Text) (index : List Text)
      → is_dynamic t ≡ false
      → is_dynamic u ≡ false
      → texts.to_text key ≡ ok text
      → has_text texts text index ≡ false
      → append_entry texts t u key index ≡ ok (true, text ∷ index)
  unfolding append_entry
  append_entry_new t u key text index h k shown fresh = rw (h, k, shown, fresh)

  read_entries_cons :
      (t u : ClType) (read_key read_val : Bytes → Parsed ClValue) (n : ℕ) (index index' : List Text)
      (bytes next tail : Bytes) (k v : ClValue)
      → (b : ℕ) × (bs : Bytes) × (bytes ≡ b ∷ bs)
      → read_key (bytes ++ next) ≡ ok (k, next)
      → read_val next ≡ ok (v, tail)
      → append_entry texts t u k index ≡ ok (true, index')
      → read_entries texts t u read_key read_val (suc n) index (bytes ++ next) ≡ (do
        (es, rest) ← read_entries texts t u read_key read_val n index' tail
        ok (entry k v es, rest))
  unfolding read_entries
  read_entries_cons t u read_key read_val n index index' bytes next tail k v (b, bs, cut) rk rv
        added =
      rw (cut)
        (let rk' : read_key (b ∷ bs ++ next) ≡ ok (k, next) = rw (cut) at rk in rw (rk', rv, added))

  pub entry_ReadsEntries :
      (t u : ClType) (index : List Text) (k v : ClValue) (es : Entries) (text : Text)
      → is_dynamic t ≡ false
      → is_dynamic u ≡ false
      → NeedsBytes d texts t
      → texts.to_text k ≡ ok text
      → has_text texts text index ≡ false
      → Reads d texts t k
      → Reads d texts u v
      → ReadsEntries t u (text ∷ index) es
      → ReadsEntries t u index (entry k v es)
  unfolding entries_bytes entry_count plain
  entry_ReadsEntries t u index k v es text h l needs shown fresh r q p = record {
    parts = (r.bytes ++ q.bytes) ∷ p.parts;
    written = rw (r.written, q.written, p.written, concat2);
    read = λ rest.
        let tail = e.concat p.parts ++ rest in
        let (k', back, same, again) = r.read (q.bytes ++ tail) in
        let (v', back', same', again') = q.read tail in
        let (es', back'', same'', again'') = p.read rest in
        let shown' : texts.to_text k' ≡ ok text =
          sym (texts.to_text-plain k') ∙ ap (λ w. texts.to_text w) same ∙ shown in
        (
          entry k' v' es',
          rw (
            e.concat-cons (r.bytes ++ q.bytes) p.parts,
            append_assoc (r.bytes ++ q.bytes) (e.concat p.parts) rest,
            append_assoc r.bytes q.bytes tail,
            read_entries_cons t u (from_bytes_by_type d texts t) (from_bytes_by_type d texts u)
                (entry_count es) index (text ∷ index) r.bytes (q.bytes ++ tail) tail k' v'
                (nonempty d texts t k r.bytes needs r.read) back back'
                (append_entry_new t u k' text index h l shown' fresh),
            back'',
          ),
          rw (same, same', same''),
          rw (again, again', again'', concat2),
        );
  }

  pub map_Reads :
      (t u : ClType) (es : Entries)
      → entry_count es < 2 ^ 32
      → ReadsEntries t u [] es
      → Reads d texts (map t u) (cl_map t u es)
  unfolding value_bytes from_bytes_by_type plain
  map_Reads t u es small p = record {
    bytes = le_bytes 4 (entry_count es) ++ e.concat p.parts;
    written = rw (p.written, to_bytes_u32-le_bytes (entry_count es) small, e.concat-cons);
    read = λ rest.
        let (es', back, same, again) = p.read rest in
        (
          cl_map t u es',
          rw (
            append_assoc (le_bytes 4 (entry_count es)) (e.concat p.parts) rest,
            u32_from_bytes-le_bytes (entry_count es) (e.concat p.parts ++ rest) (omega arith),
            back,
          ),
          ap (cl_map t u) same,
          let count : entry_count es' ≡ entry_count es =
                sym (entry_count-plain es') ∙ ap (λ fs. entry_count fs) same in
              rw (again, count, to_bytes_u32-le_bytes (entry_count es) small, e.concat-cons),
        );
  }
