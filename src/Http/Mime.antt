-- ===== src/Http/Mime.antt =====
-- http/http.cc, http::mime_type: content types and the file extensions that stand for them.
pub mod Extensions
use caviar_hacker_grid.Base.{
  ℕ, Bool, true, false, List, [], ◌∷◌, map, Option, none, some, if◌then◌else◌,
}
use caviar_hacker_grid.Base.Text.{Bytes, codes, equal, to_lower}

-- `enum mime_type::ContentType`.
pub data ContentType : Type 0 where
  text_plain : ContentType
  text_html : ContentType
  text_css : ContentType
  text_js : ContentType
  text_wc : ContentType
  image_jpeg : ContentType
  image_png : ContentType
  image_gif : ContentType
  image_svg_xml : ContentType
  image_bmp : ContentType
  image_webp : ContentType
  image_wc : ContentType
  audio_mpeg : ContentType
  audio_ogg : ContentType
  audio_webm : ContentType
  audio_midi : ContentType
  audio_wav : ContentType
  audio_wc : ContentType
  video_mp4 : ContentType
  video_webm : ContentType
  video_ogg : ContentType
  video_wc : ContentType
  app_octet_stream : ContentType
  app_pkcs12 : ContentType
  app_vnd_mspowerpoint : ContentType
  app_xhtml_xml : ContentType
  app_xml : ContentType
  app_pdf : ContentType

-- `ContentTypeAsString`.
unfoldable pub content_type_as_string : ContentType → Bytes
content_type_as_string text_plain = codes "text/plain"
content_type_as_string text_html = codes "text/html"
content_type_as_string text_css = codes "text/css"
content_type_as_string text_js = codes "text/javascript"
content_type_as_string text_wc = codes "text/*"
content_type_as_string image_jpeg = codes "image/jpeg"
content_type_as_string image_png = codes "image/png"
content_type_as_string image_gif = codes "image/gif"
content_type_as_string image_svg_xml = codes "image/svg+xml"
content_type_as_string image_bmp = codes "image/bmp"
content_type_as_string image_webp = codes "image/webp"
content_type_as_string image_wc = codes "image/*"
content_type_as_string audio_mpeg = codes "audio/mpeg"
content_type_as_string audio_ogg = codes "audio/ogg"
content_type_as_string audio_webm = codes "audio/webm"
content_type_as_string audio_midi = codes "audio/midi"
content_type_as_string audio_wav = codes "audio/wav"
content_type_as_string audio_wc = codes "audio/*"
content_type_as_string video_mp4 = codes "video/mp4"
content_type_as_string video_webm = codes "video/webm"
content_type_as_string video_ogg = codes "video/ogg"
content_type_as_string video_wc = codes "video/*"
content_type_as_string app_octet_stream = codes "application/octet-stream"
content_type_as_string app_pkcs12 = codes "application/pkcs12"
content_type_as_string app_vnd_mspowerpoint = codes "application/vnd.mspowerpoint"
content_type_as_string app_xhtml_xml = codes "application/xhtml+xml"
content_type_as_string app_xml = codes "application/xml"
content_type_as_string app_pdf = codes "application/pdf"

-- The comparisons of `GetMimeType`, in order.
abbrev pub extensions : List (Bytes × ContentType)
extensions =
    (codes "txt", text_plain)
    ∷ (codes "sh", text_plain)
    ∷ (codes "cc", text_plain)
    ∷ (codes "h", text_plain)
    ∷ (codes "html", text_html)
    ∷ (codes "js", text_js)
    ∷ (codes "css", text_css)
    ∷ (codes "jpg", image_jpeg)
    ∷ (codes "jpeg", image_jpeg)
    ∷ (codes "png", image_png)
    ∷ (codes "gif", image_gif)
    ∷ (codes "svg", image_svg_xml)
    ∷ (codes "webp", image_webp)
    ∷ (codes "mpeg", audio_mpeg)
    ∷ (codes "mp3", audio_mpeg)
    ∷ (codes "ogg", audio_ogg)
    ∷ (codes "midi", audio_midi)
    ∷ (codes "wav", audio_wav)
    ∷ (codes "mp4", video_mp4)
    ∷ (codes "webm", video_webm)
    ∷ (codes "ppt", app_vnd_mspowerpoint)
    ∷ (codes "pptx", app_vnd_mspowerpoint)
    ∷ (codes "p12", app_pkcs12)
    ∷ (codes "pfx", app_pkcs12)
    ∷ (codes "xhtml", app_xhtml_xml)
    ∷ (codes "xml", app_xml)
    ∷ (codes "pdf", app_pdf)
    ∷ []

-- The first extension that is equal to the one asked for, else binary data.
unfoldable pub content_type_of : Bytes → List (Bytes × ContentType) → ContentType
unfolding equal
content_type_of extension [] = app_octet_stream
content_type_of extension ((e, type) ∷ cases) =
    if equal extension e then type else content_type_of extension cases

-- `GetMimeType`.
unfoldable pub get_mime_type : Bytes → ContentType
unfolding content_type_of to_lower
get_mime_type extension = content_type_of (map to_lower extension) extensions
