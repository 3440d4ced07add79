-- ===== src/Paths/Examples.antt =====
-- Canonical paths on short values.
use Prim.Native.Char.{code}
use gian_proxies.Base.{String, ◌≡◌, refl, true, false, ◌&&◌, [], ◌∷◌, map}
use gian_proxies.Paths.{
  Units, is_posix_separator, first_is, posix_normalize, win32_normalize,
  is_normalized_posix_absolute, is_canonical_absolute_path,
}
use gian_proxies.Paths.Posix.{no_double_slash, is_normalized_posix_absolute-plain}

abbrev units : String → Units
units String.[] = []
units (String.◌∷◌ c s) = code c ∷ units s

posix_test : posix_normalize (units "/a/./b//../c/") ≡ units "/a/c/"
unfolding posix_normalize
posix_test = refl

win32_test : win32_normalize (units "\\\\srv//share/a/..\\b\\") ≡ units "\\\\srv\\share\\b\\"
unfolding win32_normalize
win32_test = refl

canonical_test :
    map is_canonical_absolute_path (
      units "/a/b"
      ∷ units "/a//b"
      ∷ units "/a/../b"
      ∷ units "C:\\a"
      ∷ units "C:/a"
      ∷ units "a"
      ∷ [])
    ≡ true ∷ false ∷ false ∷ true ∷ false ∷ false ∷ []
unfolding is_canonical_absolute_path posix_normalize win32_normalize
canonical_test = refl

is_normalized_posix_absolute-plain_example :
    is_normalized_posix_absolute (units "/a/b/")
    ≡ (first_is is_posix_separator (units "/a/b/") && no_double_slash false (units "/a/b/"))
is_normalized_posix_absolute-plain_example = is_normalized_posix_absolute-plain (units "/a/b/") refl

accepted : is_canonical_absolute_path (units "C:\\a") ≡ true
unfolding is_canonical_absolute_path posix_normalize win32_normalize
accepted = refl
