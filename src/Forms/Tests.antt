-- ===== src/Forms/Tests.antt =====
-- Runs of forms.c on a small form, and the instance of its theorem.
use jawas.Base.{some, List, [], ◌∷◌, ◌≡◌, refl, codes, Bytes}
use jawas.Str.{search, find}
use jawas.Forms.{find_boundary, parse_name}
use jawas.Forms.Ends.{find_boundary_lem, places_from, places, part_fields}
use jawas.Headers.{Slot}

-- The search for `name="` stops at the first byte that occurs in it, so six bytes behind that the name
-- begins.
name_runs :
    parse_name (codes "--x\r\nContent-Disposition: form-data; name=\"a\"") 0
    ≡ some (codes "Disposition: form-data; name=")
unfolding parse_name search
name_runs = refl

boundary_runs : find_boundary (codes "multipart/form-data; boundary=xY") ≡ some (codes "--xY")
boundary_runs = find_boundary_lem (codes "xY")

abbrev form : Bytes
form = codes "--x\r\nname=\"a\"\r\n\r\n1\r\n--x--"

-- The search for the boundary too stops at the first byte that occurs in it.
places_runs : places form (codes "--x") 0 ≡ 0 ∷ 4 ∷ 23 ∷ []
unfolding places_from search find
places_runs = refl

abbrev form_fields : List Slot
form_fields = part_fields (codes "/tmp/1") form (codes "--x") (places form (codes "--x") 0)
