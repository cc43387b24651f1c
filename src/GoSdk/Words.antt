-- ===== src/GoSdk/Words.antt =====
-- The words that crates/specforge-go/src/lib.rs keeps away from.
use specforge_openapi_sdk_co.Prelude.{List, [], ◌∷◌, Chars, codes}

-- The names of `is_sdk_builtin_type`.
unfoldable pub builtin_types : List Chars
builtin_types =
    codes "ValidationError"
    ∷ codes "ValidationErrors"
    ∷ codes "TokenBucket"
    ∷ codes "TelemetryHooks"
    ∷ codes "StreamMiddleware"
    ∷ codes "SseIterator"
    ∷ codes "SlidingWindow"
    ∷ codes "ServiceContainer"
    ∷ codes "ServerSentEvent"
    ∷ codes "Semaphore"
    ∷ codes "RouteSchemaMap"
    ∷ codes "RetryOptions"
    ∷ codes "ResponseTransformer"
    ∷ codes "ResponseInterceptor"
    ∷ codes "ResponseCache"
    ∷ codes "RequestInterceptor"
    ∷ codes "RequestDeduper"
    ∷ codes "RateLimiter"
    ∷ codes "OffsetPage"
    ∷ codes "MiddlewareResponse"
    ∷ codes "MiddlewareRequest"
    ∷ codes "Middleware"
    ∷ codes "MetricsCollector"
    ∷ codes "Metrics"
    ∷ codes "CursorPage"
    ∷ codes "Client"
    ∷ codes "Auth"
    ∷ codes "Logger"
    ∷ codes "WebhookHandler"
    ∷ []

-- The words of `is_go_reserved`.
unfoldable pub reserved : List Chars
reserved =
    codes "break"
    ∷ codes "default"
    ∷ codes "func"
    ∷ codes "interface"
    ∷ codes "select"
    ∷ codes "case"
    ∷ codes "defer"
    ∷ codes "go"
    ∷ codes "map"
    ∷ codes "struct"
    ∷ codes "chan"
    ∷ codes "else"
    ∷ codes "goto"
    ∷ codes "package"
    ∷ codes "switch"
    ∷ codes "const"
    ∷ codes "fallthrough"
    ∷ codes "if"
    ∷ codes "range"
    ∷ codes "type"
    ∷ codes "continue"
    ∷ codes "for"
    ∷ codes "import"
    ∷ codes "return"
    ∷ codes "var"
    ∷ codes "error"
    ∷ codes "string"
    ∷ codes "bool"
    ∷ codes "int"
    ∷ codes "any"
    ∷ codes "true"
    ∷ codes "false"
    ∷ codes "nil"
    ∷ codes "iota"
    ∷ codes "append"
    ∷ codes "cap"
    ∷ codes "close"
    ∷ codes "complex"
    ∷ codes "copy"
    ∷ codes "delete"
    ∷ codes "imag"
    ∷ codes "len"
    ∷ codes "make"
    ∷ codes "new"
    ∷ codes "panic"
    ∷ codes "print"
    ∷ codes "println"
    ∷ codes "real"
    ∷ codes "recover"
    ∷ codes "context"
    ∷ codes "body"
    ∷ codes "ctx"
    ∷ codes "c"
    ∷ codes "q"
    ∷ codes "query"
    ∷ codes "out"
    ∷ codes "err"
    ∷ codes "url"
    ∷ codes "http"
    ∷ codes "json"
    ∷ codes "fmt"
    ∷ codes "io"
    ∷ codes "strings"
    ∷ codes "strconv"
    ∷ codes "bytes"
    ∷ codes "time"
    ∷ codes "pathEscape"
    ∷ codes "anyString"
    ∷ codes "fmtInt"
    ∷ codes "fmtInt64"
    ∷ codes "fmtBool"
    ∷ codes "fmtFloat"
    ∷ []
