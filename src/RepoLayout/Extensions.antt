-- ===== src/RepoLayout/Extensions.antt =====
-- packages/core/src/repo-layout.ts: the extensions of pictures and of files that are never text.
use skillcdn.Common.{Bool, List, [], ◌∷◌, ◌++◌, keep, not}
use skillcdn.Text.{Text, codes, same, has}
use skillcdn.RepoPath.{RepoPath}
use skillcdn.RepoLayout.{extension_of}

abbrev pub image_extensions : List Text
image_extensions =
    codes "png"
    ∷ codes "jpg"
    ∷ codes "jpeg"
    ∷ codes "gif"
    ∷ codes "webp"
    ∷ codes "avif"
    ∷ codes "bmp"
    ∷ codes "tif"
    ∷ codes "tiff"
    ∷ codes "ico"
    ∷ codes "heic"
    ∷ codes "heif"
    ∷ codes "svg"
    ∷ []

abbrev other_binary_extensions : List Text
other_binary_extensions =
    codes "psd"
    ∷ codes "ai"
    ∷ codes "pdf"
    ∷ codes "doc"
    ∷ codes "docx"
    ∷ codes "xls"
    ∷ codes "xlsx"
    ∷ codes "ppt"
    ∷ codes "pptx"
    ∷ codes "odt"
    ∷ codes "ods"
    ∷ codes "odp"
    ∷ codes "hwp"
    ∷ codes "hwpx"
    ∷ codes "epub"
    ∷ codes "zip"
    ∷ codes "gz"
    ∷ codes "tgz"
    ∷ codes "bz2"
    ∷ codes "xz"
    ∷ codes "zst"
    ∷ codes "7z"
    ∷ codes "rar"
    ∷ codes "tar"
    ∷ codes "jar"
    ∷ codes "mp3"
    ∷ codes "mp4"
    ∷ codes "m4a"
    ∷ codes "m4v"
    ∷ codes "mov"
    ∷ codes "avi"
    ∷ codes "mkv"
    ∷ codes "webm"
    ∷ codes "wav"
    ∷ codes "flac"
    ∷ codes "ogg"
    ∷ codes "opus"
    ∷ codes "woff"
    ∷ codes "woff2"
    ∷ codes "ttf"
    ∷ codes "otf"
    ∷ codes "eot"
    ∷ codes "exe"
    ∷ codes "dll"
    ∷ codes "so"
    ∷ codes "dylib"
    ∷ codes "bin"
    ∷ codes "wasm"
    ∷ codes "class"
    ∷ codes "pyc"
    ∷ codes "sqlite"
    ∷ codes "db"
    ∷ codes "parquet"
    ∷ []

unfoldable pub binary_extensions : List Text
binary_extensions =
    keep (λ extension. not (same extension (codes "svg"))) image_extensions
    ++ other_binary_extensions

unfoldable pub is_image_path : RepoPath → Bool
unfolding extension_of
is_image_path path = has image_extensions (extension_of path)

unfoldable pub is_binary_path : RepoPath → Bool
unfolding extension_of binary_extensions
is_binary_path path = has binary_extensions (extension_of path)
