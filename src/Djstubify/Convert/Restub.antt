-- ===== src/Djstubify/Convert/Restub.antt =====
-- `coff2exe` of djstubify2.py on a file that -g has linked: another stub, and no stub.
use djstub.Base.{◌+◌, ◌≡◌, List, ◌∷◌, [], ◌++◌, arith}
use djstub.Djstubify.{Blob, Link, total}
use djstub.Djstubify.Convert.{Walk}
use djstub.Djstubify.Written.{IsLinkable}
use djstub.Djstubify.Linked.{IsLinked}
use djstub.Djstubify.Convert.Table.{new_stub}
use djstub.Djstubify.Convert.Walked.{plain, behind_stub}

pub total-split :
    (before : List Blob) (o : Blob) (after : List Blob)
    → total (before ++ (o ∷ after)) ≡ total before + o.size + total after
total-split [] o after = omega arith
total-split (x ∷ before) o after = omega (arith, total-split before o after)

module _ (l : Link) (stub stub' f g : Blob) (k : IsLinkable l stub') (h : IsLinked l stub f) where
  abbrev w : Walk
  w = behind_stub plain f

  abbrev out : Blob
  out = new_stub w stub' k.room k.small
