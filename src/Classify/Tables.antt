-- ===== src/Classify/Tables.antt =====
-- The tables of src/classify.rs.
use afeye.Prelude.{String, List, [], ◌∷◌}

-- `STRONG`
abbrev pub strong : List String
strong =
    "toDataURL" ∷ "toBlob" ∷ "getImageData" ∷ "getParameter" ∷ "getExtension"
    ∷ "getSupportedExtensions" ∷ "getShaderPrecisionFormat" ∷ "getFloatFrequencyData"
    ∷ "startRendering" ∷ "convertToBlob" ∷ "new:OffscreenCanvas" ∷ "new:OfflineAudioContext" ∷ "sab"
    ∷ "wmem:new" ∷ "call:eval" ∷ "new:Function" ∷ "shaderSource" ∷ []

-- `WEAK`
abbrev pub weak : List String
weak =
    "g:plugins" ∷ "g:mimeTypes" ∷ "g:hardwareConcurrency" ∷ "g:deviceMemory" ∷ "g:platform"
    ∷ "g:languages" ∷ "g:userAgent" ∷ "g:width" ∷ "g:height" ∷ "g:colorDepth" ∷ "Math.random"
    ∷ "new:AudioContext" ∷ "po:new" ∷ "wasm:instantiate" ∷ "getContext" ∷ []

-- `BLACKLIST`
abbrev pub blacklist : List String
blacklist =
    "google-analytics.com" ∷ "googletagmanager.com" ∷ "doubleclick.net" ∷ "googleadservices.com"
    ∷ "adservice.google.com" ∷ "hotjar.com" ∷ "sentry.io" ∷ "ingest.sentry.io" ∷ "amplitude.com"
    ∷ "mixpanel.com" ∷ "segment.io" ∷ "segment.com" ∷ "clarity.ms" ∷ "mc.yandex.ru" ∷ "an.yandex.ru"
    ∷ "scorecardresearch.com" ∷ "quantserve.com" ∷ "quantcount.com" ∷ "casalemedia.com"
    ∷ "rubiconproject.com" ∷ "pubmatic.com" ∷ "criteo.com" ∷ "criteo.net" ∷ "adnxs.com"
    ∷ "adsrvr.org" ∷ "taboola.com" ∷ "outbrain.com" ∷ "demdex.net" ∷ "everesttech.net"
    ∷ "omtrdc.net" ∷ "2o7.net" ∷ "pixel.facebook.com" ∷ "analytics.tiktok.com" ∷ "bat.bing.com"
    ∷ "alb.reddit.com" ∷ "pixel.reddit.com" ∷ "fonts.googleapis.com" ∷ "fonts.gstatic.com"
    ∷ "cloudflareinsights.com" ∷ "rum.aliyuncs.com" ∷ "log.aliyuncs.com" ∷ "play.google.com"
    ∷ "pixel-config.reddit.com" ∷ "ads-twitter.com" ∷ "analytics.twitter.com"
    ∷ "app-measurement.com" ∷ "analytics.google.com" ∷ "youtube.com" ∷ "youtube-nocookie.com"
    ∷ "ytimg.com" ∷ "video.google.com" ∷ []

-- `COOKIE_SIGS`
abbrev pub cookie_sigs : List String
cookie_sigs =
    "datadome" ∷ "_dd_s" ∷ "_abck" ∷ "bm_sz" ∷ "ak_bmsc" ∷ "cf_clearance" ∷ "__cf_bm" ∷ "_cfuvid"
    ∷ "pxhd" ∷ "pxcd" ∷ "kasada" ∷ []

-- `RES_TYPES`
abbrev pub res_types : List String
res_types = "Image" ∷ "Font" ∷ "Stylesheet" ∷ "Media" ∷ "Manifest" ∷ "Favicon" ∷ []

-- `KEEP_PREFIXES`
abbrev pub keep_prefixes : List String
keep_prefixes =
    "stk:" ∷ "src:" ∷ "wasm" ∷ "wmem:" ∷ "sab" ∷ "po:" ∷ "_boot" ∷ "_th" ∷ "_c" ∷ "_m" ∷ "_dr"
    ∷ "new:" ∷ "call:" ∷ "listen" ∷ "setattr:" ∷ "slow:" ∷ "mq:" ∷ "worker:src" ∷ "gl:shader" ∷ []

abbrev pub blacklist_path : List (String × String)
blacklist_path =
    ("www.google.com", "/g/collect")
    ∷ ("www.google.com", "/measurement")
    ∷ ("www.google.com", "/ccm/")
    ∷ ("www.google.com", "/pagead/")
    ∷ ("www.google.com", "/log?")
    ∷ []

-- `Mode`
pub data Mode : Type 0 where
  main strict : Mode
