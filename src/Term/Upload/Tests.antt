-- ===== src/Term/Upload/Tests.antt =====
-- Runs of pastes (term/upload.ts).
use multimux.Base.{◌≡◌, refl, none, some, [], ◌∷◌, Str, str_eq, codes}
use multimux.Term.Upload.{DataTransfer, image_files, is_plain, quote_path}

abbrev a_paste : DataTransfer Str
a_paste = record {
  files = [];
  items =
      (codes "string", none)
      ∷ (codes "file", some (codes "image/png"))
      ∷ (codes "file", some (codes "text/html"))
      ∷ [];
  types = codes "Files" ∷ [];
}

pasted : image_files (λ f. f) (some a_paste) ≡ codes "image/png" ∷ []
unfolding image_files str_eq
pasted = refl

quoted : quote_path (codes "/tmp/a b(1).png") ≡ codes "/tmp/a\\ b\\(1\\).png"
unfolding quote_path is_plain
quoted = refl
