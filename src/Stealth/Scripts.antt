-- ===== src/Stealth/Scripts.antt =====
-- crates/eiger-stealth/src/lib.rs: the scripts that hide the automation from a page.
use eiger.Common.{String, List, [], ◌∷◌}
use eiger.Text.{append}

pub record StealthScript : Type 0 where
  pub name : String
  pub source : String

-- Each line with its end.
abbrev unlines : List String → String
unlines [] = ""
unlines (line ∷ lines) = append line (append "\n" (unlines lines))

-- `BASELINE_SCRIPT`.
unfoldable pub baseline_script : String
baseline_script = unlines (
    "" ∷ "(() => {" ∷ "  const defineGetter = (object, property, getter) => {" ∷ "    try {"
    ∷ "      Object.defineProperty(object, property, { get: getter, configurable: true });"
    ∷ "    } catch (_) {}" ∷ "  };" ∷ ""
    ∷ "  defineGetter(Navigator.prototype, 'webdriver', () => undefined);"
    ∷ "  defineGetter(navigator, 'webdriver', () => undefined);"
    ∷ "  defineGetter(Navigator.prototype, 'languages', () => ['en-US', 'en']);"
    ∷ "  defineGetter(navigator, 'languages', () => ['en-US', 'en']);"
    ∷ "  defineGetter(Navigator.prototype, 'plugins', () => ["
    ∷ "    { name: 'Chrome PDF Plugin', filename: 'internal-pdf-viewer', description: 'Portable Document Format' },"
    ∷ "    { name: 'Chrome PDF Viewer', filename: 'mhjfbmdgcfjbbpaeojofohoefgiehjai', description: '' },"
    ∷ "    { name: 'Native Client', filename: 'internal-nacl-plugin', description: '' }" ∷ "  ]);"
    ∷ "  defineGetter(navigator, 'plugins', () => ["
    ∷ "    { name: 'Chrome PDF Plugin', filename: 'internal-pdf-viewer', description: 'Portable Document Format' },"
    ∷ "    { name: 'Chrome PDF Viewer', filename: 'mhjfbmdgcfjbbpaeojofohoefgiehjai', description: '' },"
    ∷ "    { name: 'Native Client', filename: 'internal-nacl-plugin', description: '' }" ∷ "  ]);"
    ∷ "  defineGetter(Navigator.prototype, 'mimeTypes', () => ["
    ∷ "    { type: 'application/pdf', suffixes: 'pdf', description: 'Portable Document Format' }"
    ∷ "  ]);" ∷ "  defineGetter(navigator, 'mimeTypes', () => ["
    ∷ "    { type: 'application/pdf', suffixes: 'pdf', description: 'Portable Document Format' }"
    ∷ "  ]);" ∷ "" ∷ "  try {" ∷ "    if (!window.chrome) {"
    ∷ "      Object.defineProperty(window, 'chrome', {" ∷ "        value: { runtime: {} },"
    ∷ "        configurable: true" ∷ "      });" ∷ "    } else if (!window.chrome.runtime) {"
    ∷ "      Object.defineProperty(window.chrome, 'runtime', { value: {}, configurable: true });"
    ∷ "    }" ∷ "  } catch (_) {}" ∷ ""
    ∷ "  const originalQuery = window.navigator.permissions && window.navigator.permissions.query;"
    ∷ "  if (originalQuery) {" ∷ "    window.navigator.permissions.query = (parameters) => {"
    ∷ "      if (parameters && parameters.name === 'notifications') {"
    ∷ "        return Promise.resolve({ state: Notification.permission });" ∷ "      }"
    ∷ "      return originalQuery.call(window.navigator.permissions, parameters);" ∷ "    };"
    ∷ "  }" ∷ "" ∷ "  const patchWebGL = (prototype) => {"
    ∷ "    if (!prototype || !prototype.getParameter) return;"
    ∷ "    const originalGetParameter = prototype.getParameter;"
    ∷ "    prototype.getParameter = function(parameter) {"
    ∷ "      if (parameter === 37445) return 'Intel Inc.';"
    ∷ "      if (parameter === 37446) return 'Intel Iris OpenGL Engine';"
    ∷ "      return originalGetParameter.call(this, parameter);" ∷ "    };" ∷ "  };" ∷ ""
    ∷ "  patchWebGL(window.WebGLRenderingContext && window.WebGLRenderingContext.prototype);"
    ∷ "  patchWebGL(window.WebGL2RenderingContext && WebGL2RenderingContext.prototype);" ∷ "})();"
    ∷ [])

unfoldable pub baseline_scripts : List StealthScript
unfolding baseline_script
baseline_scripts = record { name = "baseline-navigator-and-webgl"; source = baseline_script } ∷ []
