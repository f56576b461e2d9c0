-- ===== src/Target/Api/Paths.antt =====
-- Paths that are put together are taken apart again by `from_rest` of airfrog/src/target/request.rs.
use airfrog.Prelude.{
  ℕ, ◌==◌, ◌≡◌, refl, arith, Bool, true, false, if◌then◌else◌, Option, [], ◌∷◌, ◌++◌,
}
use airfrog.Bin.Error.{ok}
use airfrog.Target.HexText.{Text}
use airfrog.Target.Types.{Command}
use airfrog.Target.Path.{ascii, slash, same_text, strip_prefix, split}
use airfrog.Target.Api.{Method, RestJson, from_rest_raw}

-- No byte of the text is a slash.
unfoldable pub has_no_slash : Text → Bool
has_no_slash [] = true
has_no_slash (c ∷ cs) = if c == slash then false else has_no_slash cs

no_slash-cons :
    (c : ℕ) (cs : Text)
    → has_no_slash (c ∷ cs) ≡ true
    → (c == slash ≡ false) × (has_no_slash cs ≡ true)
unfolding has_no_slash
no_slash-cons c cs h = ground arith

split-no_slash : (part : Text) → has_no_slash part ≡ true → split part ≡ part ∷ []
unfolding split
split-no_slash [] h = refl
split-no_slash (c ∷ cs) h =
    let (first, rest) = no_slash-cons c cs h in rw (first, split-no_slash cs rest) refl

-- A part in front of a slash is the first one.
split-part :
    (part rest : Text)
    → has_no_slash part ≡ true
    → split (part ++ (slash ∷ rest)) ≡ part ∷ split rest
unfolding split
split-part [] rest h = refl
split-part (c ∷ cs) rest h =
    let (first, others) = no_slash-cons c cs h in rw (first, split-part cs rest others) refl

pub same_text-≡ : (s s' : Text) → same_text s s' ≡ true → s ≡ s'
unfolding same_text
same_text-≡ [] [] h = refl
same_text-≡ (x ∷ xs) (y ∷ ys) h =
    let head : x ≡ y = ground arith in
    let tail : same_text xs ys ≡ true = ground arith in rw (head, same_text-≡ xs ys tail) refl
same_text-≡ [] (y ∷ ys) h = absurd cc
same_text-≡ (x ∷ xs) [] h = absurd cc

module _ (j : RestJson) where
  -- A request to read a register of an AP, with its index and the register's address in the path, is
  -- read as that command, if neither has a slash in it.
  pub from_rest_raw-ap_read :
      (ap_index register : Text) (body : Option j.Value)
      → has_no_slash ap_index ≡ true
      → has_no_slash register ≡ true
      → from_rest_raw j Method.get (ascii "/ap/read/" ++ (ap_index ++ (slash ∷ register))) body
        ≡ ok (Command.raw_read_ap_reg ap_index register)
  unfolding from_rest_raw strip_prefix
  from_rest_raw-ap_read ap_index register body h k =
      rw (split-part ap_index register h, split-no_slash register k) refl
