-- ===== src/Drive/Tables.antt =====
-- The tables of src/drive.rs.
use afeye.Prelude.{String, List, [], ◌∷◌}

-- `WIDGET_HINTS`
abbrev pub widget_hints : List String
widget_hints =
    "recaptcha" ∷ "g-recaptcha" ∷ "hcaptcha" ∷ "h-captcha" ∷ "cf-turnstile" ∷ "turnstile"
    ∷ "datadome" ∷ "px-captcha" ∷ "_pxcaptcha" ∷ "geetest" ∷ "funcaptcha" ∷ "arkose" ∷ "captcha"
    ∷ []

-- `CONSENT_HINTS`
abbrev pub consent_hints : List String
consent_hints =
    "terms" ∷ "tos" ∷ "privacy" ∷ "policy" ∷ "agree" ∷ "consent" ∷ "accept" ∷ "i have read"
    ∷ "услов" ∷ "согла" ∷ "политик" ∷ "подтверж" ∷ []

-- `SUBMIT_WORDS`
abbrev pub submit_words : List String
submit_words =
    "sign in" ∷ "signin" ∷ "sign up" ∷ "signup" ∷ "log in" ∷ "login" ∷ "log on" ∷ "continue"
    ∷ "submit" ∷ "next" ∷ "register" ∷ "create account" ∷ "get started" ∷ "verify" ∷ "send"
    ∷ "confirm" ∷ "войти" ∷ "регистрац" ∷ "продолжить" ∷ "далее" ∷ "отправить" ∷ "подтвердить"
    ∷ "создать" ∷ []

-- `TEXT_TYPES`
abbrev pub text_types : List String
text_types = "text" ∷ "email" ∷ "tel" ∷ "password" ∷ "search" ∷ "url" ∷ "number" ∷ "" ∷ []

-- `CHALLENGE_HOSTS`
abbrev pub challenge_hosts : List String
challenge_hosts =
    "recaptcha.net" ∷ "google.com/recaptcha" ∷ "hcaptcha.com" ∷ "challenges.cloudflare.com"
    ∷ "arkoselabs.com" ∷ "funcaptcha.com" ∷ "geetest.com" ∷ "perimeterx.net" ∷ "px-cdn.net"
    ∷ "datadome.co" ∷ []

-- the texts of `screen_of`: after an account was made, after a submit that bounced, and on a
-- challenge
abbrev pub success_words : List String
success_words =
    "account created" ∷ "check your email" ∷ "verify your email" ∷ "registration complete"
    ∷ "успешно" ∷ "аккаунт создан" ∷ []

abbrev pub error_words : List String
error_words =
    "is required" ∷ "please fill" ∷ "incorrect" ∷ "doesn't match" ∷ "does not match" ∷ "ошибка"
    ∷ "заполните" ∷ "неверно" ∷ "не совпад" ∷ []

abbrev pub challenge_words : List String
challenge_words =
    "verify you are human" ∷ "i'm not a robot" ∷ "im not a robot" ∷ "are you a robot"
    ∷ "confirm you are human" ∷ "select all images" ∷ "подтвердите что вы" ∷ "выберите все" ∷ []
