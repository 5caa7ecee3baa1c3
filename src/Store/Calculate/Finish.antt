-- ===== src/Store/Calculate/Finish.antt =====
-- The end of `CalculatePatch` (core/modrulestore.go), where the configuration that was last applied
-- is written back into the document.
use kubemod.Prelude.{
  String, ◌≡◌, refl, none, some, done, panic, ◌>>=◌, lift, >>=_assoc, ◌⊎◌, inl, inr,
}
use kubemod.Json.{Value, Fields}
use kubemod.Library.{Library, Bytes}
use kubemod.Store.{ModRuleStore}
use kubemod.Store.Annotation.Written.{annotations_of, IsWritten, set_last_applied-IsWritten}
use kubemod.Store.Calculate.{PatchState, finish}

-- Let the rules have left a last applied configuration. If the patched document has no annotations
-- any more, `CalculatePatch` panics. Otherwise it returns the document with that configuration, which
-- is read back from it, in place of the old one; every other annotation, every other field of the
-- metadata and every other field of the document is as it was; and the patch is made from that
-- document, if it can be marshalled.
pub finish-IsWritten :
    (lib : Library) (s : ModRuleStore) (operation namespace : String) (original : Bytes)
    (st : PatchState) (text : String)
    → st.last_applied ≡ some text
    → ((annotations_of st.jsonv ≡ none) × (finish lib s operation namespace original st ≡ panic))
      ⊎ ((w : Value) × (before after : Fields) × IsWritten st.jsonv w text before after
          × (finish lib s operation namespace original st ≡ (
              lift (lib.marshal w) >>= λ doc.
              lift (lib.create_patch original doc) >>= λ ops. done (w, ops))))
unfolding finish
finish-IsWritten lib s operation namespace original st text has =
    elim (set_last_applied-IsWritten st.jsonv text) [
      | inl (gone, panics) ↦ inl (gone, rw (has, panics) refl)
      | inr (w, before, after, sets, is_written) ↦
          inr (w, before, after, is_written, rw (has, sets) (>>=_assoc (lift (lib.marshal w)) _ _))
    ]
