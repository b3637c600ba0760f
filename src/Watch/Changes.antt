-- ===== src/Watch/Changes.antt =====
-- What a write leaves in the watch folder, for loops of writes.
use linux_iso_seeder.Base.{
  ◌≡◌, refl, ◌∙◌, sym, ap, subst, subst₂, true, ◌⊎◌, inl, inr, Option, some, Result,
}
use linux_iso_seeder.Base.Text.{Text, same, same→eq}
use linux_iso_seeder.Base.Dict
use linux_iso_seeder.Watch.{Bytes, Folder, Fault, part_path}
use linux_iso_seeder.Watch.Atomic.{IsAllOrNothing}

-- `Q` is what may be said of a file that was written, by its name and content.
module _ (Q : Text → Option Bytes → Type 0) where
  -- Every file is as it was, or is a hidden file of a write, or was written.
  abbrev pub IsChanged : Folder → Folder → Type 0
  IsChanged before after =
      (j : Text)
      → (Dict.get after j ≡ Dict.get before j)
        ⊎ ((dest : Text) × (same (part_path dest) j ≡ true))
        ⊎ Q j (Dict.get after j)

  pub IsChanged-refl : (folder : Folder) → IsChanged folder folder
  IsChanged-refl folder j = inl refl

  pub IsChanged-trans : (a b c : Folder) → IsChanged a b → IsChanged b c → IsChanged a c
  IsChanged-trans a b c first second j = elim (second j) [
    | inr changed ↦ inr changed
    | inl unchanged ↦ elim (first j) [
      | inl before ↦ inl (unchanged ∙ before)
      | inr (inl hidden) ↦ inr (inl hidden)
      | inr (inr written) ↦ inr (inr (subst (Q j) (sym unchanged) written))
    ]
  ]

  -- One write.
  pub IsChanged-write :
      (fault : Fault) (folder : Folder) (dest : Text) (content : Bytes)
      (out : Result (Unit {0}) × Folder)
      → Q dest (some content)
      → IsAllOrNothing fault folder dest content out
      → IsChanged folder out.1
  IsChanged-write fault folder dest content (r, after) q (inl (e, got, gone, others, fine)) j =
      elim (others j) [
        | inl here ↦
            let at : dest ≡ j = same→eq dest j here in
            inr (inr (subst₂ Q at (sym got ∙ ap (Dict.get after) at) q))
        | inr (inl hidden) ↦ inr (inl (dest, hidden))
        | inr (inr unchanged) ↦ inl unchanged
      ]
  IsChanged-write fault folder dest content (r, after) q (inr (e, but, bad)) j = elim (but j) [
    | inl hidden ↦ inr (inl (dest, hidden))
    | inr unchanged ↦ inl unchanged
  ]
